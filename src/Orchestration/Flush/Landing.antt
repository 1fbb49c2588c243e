-- ===== src/Orchestration/Flush/Landing.antt =====
-- orchestration/run.ts, `#flushJournal`, with the outbox of run-state/outbox.ts and the journal of
-- run-state/in-memory.ts: what the journal holds when appends and their acknowledgements get lost.
use secure_home_agent_platfo.Prelude.{
  ◌≡◌, ◌≢◌, ◌⊎◌, refl, sym, ap, ◌∙◌, ℕ, suc, ◌+◌, some, List, [], ◌∷◌, ◌++◌, Str, text, arith,
  length,
}
use secure_home_agent_platfo.Prelude.Digits.{decimal_inj, append_cancel}
use secure_home_agent_platfo.Prelude.Maps
use secure_home_agent_platfo.RunState.Journal.{JournalPage, blank, land}
use secure_home_agent_platfo.RunState.Journal.Replay.{seen-land}
use secure_home_agent_platfo.RunState.Outbox.{OutboxEntry, Numbered, identity}

unfoldable pub land_entry : OutboxEntry → JournalPage → JournalPage
land_entry e page = land e.fact (record page { seen = Maps.set e.entry_id e.fact page.seen })

-- The page after the entries have landed on it, each once and in their order.
unfoldable pub landing : List OutboxEntry → JournalPage → JournalPage
landing [] page = page
landing (e ∷ es) page = landing es (land_entry e page)

pub landing-append :
    (xs ys : List OutboxEntry) (page : JournalPage)
    → landing (xs ++ ys) page ≡ landing ys (landing xs page)
unfolding landing
landing-append [] ys page = refl
landing-append (x ∷ xs) ys page = landing-append xs ys (land_entry x page)

identity_inj : (prefix : Str) (m n : ℕ) → identity prefix m ≡ identity prefix n → m ≡ n
unfolding identity
identity_inj prefix m n h =
    decimal_inj m n (append_cancel (text "#j") _ _ (append_cancel prefix _ _ h))

-- None of the entries has the identity.
abbrev pub Lacks : Str → List OutboxEntry → Type 0
Lacks id [] = Unit {0}
Lacks id (e ∷ es) = (e.entry_id ≢ id) × Lacks id es

Numbered-id :
    (prefix : Str) (k : ℕ) (xs : List OutboxEntry) (e : OutboxEntry) (es : List OutboxEntry) (m : ℕ)
    → Numbered prefix k (xs ++ e ∷ es) m
    → e.entry_id ≡ identity prefix (suc (k + length xs))
Numbered-id prefix k [] e es m h = h.0 ∙ ap (identity prefix) (omega arith)
Numbered-id prefix k (x ∷ xs) e es m h =
    Numbered-id prefix (suc k) xs e es m h.1 ∙ ap (identity prefix) (omega arith)

pub Numbered-Lacks :
    (prefix : Str) (k : ℕ) (xs : List OutboxEntry) (e : OutboxEntry) (es : List OutboxEntry) (m : ℕ)
    → Numbered prefix k (xs ++ e ∷ es) m
    → Lacks e.entry_id xs
Numbered-Lacks prefix k [] e es m h = tt
Numbered-Lacks prefix k (x ∷ xs) e es m h = (
  λ q.
      let i =
        identity_inj prefix (suc k) (suc (suc k + length xs))
          (sym h.0 ∙ (q ∙ Numbered-id prefix (suc k) xs e es m h.1)) in
      absurd (omega (arith, i)),
  Numbered-Lacks prefix (suc k) xs e es m h.1,
)

seen-land_entry_ne :
    (id : Str) (e : OutboxEntry) (page : JournalPage)
    → e.entry_id ≢ id
    → Maps.get id (land_entry e page).seen ≡ Maps.get id page.seen
unfolding land_entry
seen-land_entry_ne id e page n =
    ap (Maps.get id)
      (seen-land e.fact (record page { seen = Maps.set e.entry_id e.fact page.seen }))
    ∙ Maps.get-set_ne e.entry_id id e.fact page.seen n

pub seen-landing :
    (id : Str) (es : List OutboxEntry) (page : JournalPage)
    → Lacks id es
    → Maps.get id (landing es page).seen ≡ Maps.get id page.seen
unfolding landing
seen-landing id [] page l = refl
seen-landing id (e ∷ es) page l =
    seen-landing id es (land_entry e page) l.1 ∙ seen-land_entry_ne id e page l.0

pub seen-land_entry :
    (e : OutboxEntry) (page : JournalPage)
    → Maps.get e.entry_id (land_entry e page).seen ≡ some e.fact
unfolding land_entry
seen-land_entry e page =
    ap (Maps.get e.entry_id)
      (seen-land e.fact (record page { seen = Maps.set e.entry_id e.fact page.seen }))
    ∙ Maps.get-set_self e.entry_id e.fact page.seen

-- The page holds the entries that left the outbox, and at most the first that still waits: that one
-- landed, and its acknowledgement was lost.
abbrev pub Holds : List OutboxEntry → List OutboxEntry → JournalPage → Type 0
Holds popped pending page =
    (page ≡ landing popped blank)
    ⊎ ((e : OutboxEntry) × (es : List OutboxEntry) × (pending ≡ e ∷ es)
        × (page ≡ landing (popped ++ e ∷ []) blank))

pub landed_next :
    (popped : List OutboxEntry) (e : OutboxEntry) (page : JournalPage)
    → page ≡ landing popped blank
    → land_entry e page ≡ landing (popped ++ e ∷ []) blank
unfolding landing
landed_next popped e page h = ap (land_entry e) h ∙ sym (landing-append popped (e ∷ []) blank)
