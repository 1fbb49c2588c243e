-- ===== src/RunState/Outbox.antt =====
-- services/runner-control/src/run-state/outbox.ts: the queue of the facts that have not landed in the
-- journal, each under an identity minted when it was recorded.
use secure_home_agent_platfo.Prelude.{
  ◌≡◌, refl, sym, ap, ◌∙◌, ℕ, zero, suc, ◌+◌, Option, none, some, List, [], ◌∷◌, ◌++◌, map,
  append-nil, append_assoc, length, drop, Bool, true, false, Str, text, decimal, arith,
}
use secure_home_agent_platfo.Lifecycle.Machine.{RunMachine, pending_journal, confirm_journaled}
use secure_home_agent_platfo.RunState.Journal.{Fact, transition, rejection}
use mathlib.Core.List.{map-append}
use mathlib.Core.Path.{ap₂}

pub record OutboxEntry : Type 0 where
  pub entry_id : Str
  pub fact : Fact

pub record JournalOutbox : Type 0 where
  pub pending : List OutboxEntry
  pub prefix : Str
  pub minted : ℕ

unfoldable pub new : Str → JournalOutbox
new prefix = record { pending = []; prefix = prefix; minted = 0 }

-- The identity that the counter names.
unfoldable pub identity : Str → ℕ → Str
identity prefix n = prefix ++ (text "#j" ++ decimal n)

-- `record`: mint, then push.
unfoldable pub enqueue : Fact → JournalOutbox → JournalOutbox
enqueue fact o = record o {
  pending = o.pending ++ record { entry_id = identity o.prefix (suc o.minted); fact = fact } ∷ [];
  minted = suc o.minted;
}

unfoldable pub enqueue_all : List Fact → JournalOutbox → JournalOutbox
unfolding enqueue
enqueue_all [] o = o
enqueue_all (f ∷ fs) o = enqueue_all fs (enqueue f o)

unfoldable pub drain_machine : RunMachine → JournalOutbox → RunMachine × JournalOutbox
unfolding enqueue_all
drain_machine m o =
    let (transitions, rejections) = pending_journal m in
    (
      confirm_journaled (length transitions) (length rejections) m,
      enqueue_all (map rejection rejections) (enqueue_all (map transition transitions) o),
    )

unfoldable pub head : JournalOutbox → Option OutboxEntry
head o = elim o.pending [ [] ↦ none | e ∷ es ↦ some e ]

unfoldable pub landed : JournalOutbox → JournalOutbox
landed o = record o { pending = drop 1 o.pending }

unfoldable pub is_empty : JournalOutbox → Bool
is_empty o = elim o.pending [ [] ↦ true | e ∷ es ↦ false ]

abbrev pub facts : JournalOutbox → List Fact
facts o = map (λ e. e.fact) o.pending

drop-length : {A : Type 0} (xs : List A) → drop (length xs) xs ≡ []
drop-length [] = refl
drop-length (x ∷ xs) = drop-length xs

drop_all : {A : Type 0} (n : ℕ) (xs : List A) → drop (n + length (drop n xs)) xs ≡ []
drop_all zero xs =
    let e : zero + length xs ≡ length xs = omega arith in ap (λ k. drop k xs) e ∙ drop-length xs
drop_all (suc n) [] = ground arith
drop_all (suc n) (x ∷ xs) =
    let e : suc n + length (drop n xs) ≡ suc (n + length (drop n xs)) = omega arith in
    ap (λ k. drop k (x ∷ xs)) e ∙ drop_all n xs

facts-enqueue : (f : Fact) (o : JournalOutbox) → facts (enqueue f o) ≡ facts o ++ f ∷ []
unfolding enqueue
facts-enqueue f o =
    map-append (λ e. e.fact) o.pending
      (record { entry_id = identity o.prefix (suc o.minted); fact = f } ∷ [])

facts-enqueue_all : (fs : List Fact) (o : JournalOutbox) → facts (enqueue_all fs o) ≡ facts o ++ fs
unfolding enqueue_all enqueue
facts-enqueue_all [] o = sym (append-nil (facts o))
facts-enqueue_all (f ∷ fs) o =
    facts-enqueue_all fs (enqueue f o)
    ∙ (ap (λ q. q ++ fs) (facts-enqueue f o) ∙ append_assoc (facts o) (f ∷ []) fs)

-- Draining hands over every entry that the machine has recorded and not yet handed over, transitions
-- before rejections and each in its order, behind the facts that wait; the machine then has nothing
-- left to hand over, so that the next drain hands no entry over twice.
pub drain_machine-facts :
    (m : RunMachine) (o : JournalOutbox)
    → let (m', o') = drain_machine m o in
      (pending_journal m' ≡ ([], []))
      × (facts o'
          ≡ facts o
            ++ (map transition (pending_journal m).0 ++ map rejection (pending_journal m).1))
unfolding drain_machine pending_journal confirm_journaled
drain_machine-facts m o =
    let ts = drop m.journaled_transitions m.transitions in
    let rs = drop m.journaled_rejections m.rejections in
    (
      ap₂ (λ a b. (a, b)) (drop_all m.journaled_transitions m.transitions)
          (drop_all m.journaled_rejections m.rejections),
      facts-enqueue_all (map rejection rs) (enqueue_all (map transition ts) o)
          ∙ (ap (λ q. q ++ map rejection rs) (facts-enqueue_all (map transition ts) o)
              ∙ append_assoc (facts o) (map transition ts) (map rejection rs)),
    )

-- What the orchestration does with an outbox.
pub data Call : Type 0 where
  records : Fact → Call
  drains : RunMachine → Call
  lands : Call

abbrev pub step : Call → JournalOutbox → JournalOutbox
step (records f) o = enqueue f o
step (drains m) o = (drain_machine m o).1
step lands o = landed o

abbrev pub run : List Call → JournalOutbox → JournalOutbox
run [] o = o
run (c ∷ cs) o = run cs (step c o)

-- The entries carry the identities that follow the given number, one by one, up to the last minted.
abbrev pub Numbered : Str → ℕ → List OutboxEntry → ℕ → Type 0
Numbered prefix k [] minted = k ≡ minted
Numbered prefix k (e ∷ es) minted =
    (e.entry_id ≡ identity prefix (suc k)) × Numbered prefix (suc k) es minted

-- The identities of the queue are the last ones minted, in the order of their minting.
abbrev pub IsNumbered : JournalOutbox → Type 0
IsNumbered o = (k : ℕ) × Numbered o.prefix k o.pending o.minted

pub Numbered-append :
    (prefix : Str) (k : ℕ) (es : List OutboxEntry) (minted : ℕ) (e : OutboxEntry)
    → Numbered prefix k es minted
    → e.entry_id ≡ identity prefix (suc minted)
    → Numbered prefix k (es ++ e ∷ []) (suc minted)
Numbered-append prefix k [] minted e h i = (i ∙ ap (λ n. identity prefix (suc n)) (sym h), ap suc h)
Numbered-append prefix k (d ∷ es) minted e h i =
    (h.0, Numbered-append prefix (suc k) es minted e h.1 i)

enqueue-IsNumbered : (f : Fact) (o : JournalOutbox) → IsNumbered o → IsNumbered (enqueue f o)
unfolding enqueue
enqueue-IsNumbered f o (k, i) = (
  k,
  Numbered-append o.prefix k o.pending o.minted
      (record { entry_id = identity o.prefix (suc o.minted); fact = f }) i refl,
)

enqueue_all-IsNumbered :
    (fs : List Fact) (o : JournalOutbox) → IsNumbered o → IsNumbered (enqueue_all fs o)
unfolding enqueue_all
enqueue_all-IsNumbered [] o i = i
enqueue_all-IsNumbered (f ∷ fs) o i =
    enqueue_all-IsNumbered fs (enqueue f o) (enqueue-IsNumbered f o i)

Numbered-drop :
    (prefix : Str) (k : ℕ) (es : List OutboxEntry) (minted : ℕ)
    → Numbered prefix k es minted
    → (j : ℕ) × Numbered prefix j (drop 1 es) minted
Numbered-drop prefix k [] minted h = (k, h)
Numbered-drop prefix k (e ∷ es) minted h = (suc k, h.1)

step-IsNumbered : (c : Call) (o : JournalOutbox) → IsNumbered o → IsNumbered (step c o)
unfolding drain_machine landed
step-IsNumbered (records f) o i = enqueue-IsNumbered f o i
step-IsNumbered (drains m) o i =
    enqueue_all-IsNumbered (map rejection (pending_journal m).1) _
      (enqueue_all-IsNumbered (map transition (pending_journal m).0) o i)
step-IsNumbered lands o (k, i) = Numbered-drop o.prefix k o.pending o.minted i

run-IsNumbered : (cs : List Call) (o : JournalOutbox) → IsNumbered o → IsNumbered (run cs o)
run-IsNumbered [] o i = i
run-IsNumbered (c ∷ cs) o i = run-IsNumbered cs (step c o) (step-IsNumbered c o i)

-- Whatever is recorded, drained and landed, in whatever order, the facts that wait in an outbox carry
-- the identities with the consecutive numbers up to the last one minted: no two of them are minted
-- with one number, and a fact keeps its identity for as long as it waits.
pub run-new-IsNumbered : (prefix : Str) (cs : List Call) → IsNumbered (run cs (new prefix))
unfolding new
run-new-IsNumbered prefix cs = run-IsNumbered cs (new prefix) (0, refl)
