-- ===== src/Orchestration/Calls/Accounted.antt =====
-- orchestration/calls.ts, `recordCalls`: what was put to the event stream is in the account.
use mathlib.Core.List.{Memᴰ}
use mathlib.Core.List.Memᴰ.{append_left, append_right}
use secure_home_agent_platfo.Prelude.{
  ◌≡◌, refl, sym, ap, ◌∙◌, ◌⊎◌, inl, inr, ℕ, zero, suc, ◌+◌, ◌-◌, length, text, decimal, List, [],
  ◌∷◌, ◌++◌, append_assoc, append-nil, All, All-append, All-map, Str, arith,
}
use secure_home_agent_platfo.Prelude.Digits.{value, value-decimal, append_cancel}
use secure_home_agent_platfo.Prelude.Maps.{Map}
use secure_home_agent_platfo.Emitter.{Value, EmitOutcome, ok, not_ok, throws, goes_on}
use secure_home_agent_platfo.Orchestration.Calls.{
  Disposition, permitted, denied, AdapterCall, Operation, EvidenceOperations, zeros, call_id,
  empty_operations, under, operation_at, attempt, dispose, Recorded, complete, attempted_event,
  disposition_event, Recording, unless_failed, record_from, record_calls,
}

value-zeros : (n : ℕ) (s : Str) → value 0 (zeros n s) ≡ value 0 s
unfolding value
value-zeros zero s = refl
value-zeros (suc n) s = value-zeros n s

-- No two calls of an adapter share an identity, past the four digits of the padding too.
pub call_id_inj : (i j : ℕ) → call_id i ≡ call_id j → i ≡ j
unfolding call_id
call_id_inj i j h =
    let number = λ (k : ℕ).
      value-zeros (4 - length (decimal (k + 1))) (decimal (k + 1)) ∙ value-decimal (k + 1) in
    omega (arith, sym (number i) ∙ (ap (value 0) (append_cancel (text "call-") _ _ h) ∙ number j))

-- An emission that also lists what it is asked to emit.
abbrev pub logged :
    {S E : Type 0}
    → (Map Value → S → S × EmitOutcome E)
    → Map Value
    → S × List (Map Value)
    → (S × List (Map Value)) × EmitOutcome E
logged emit body (s, log) = let (s', o) = emit body s in ((s', log ++ body ∷ []), o)

-- The operations that the calls stand for, each under the number of its call.
abbrev pub operations_from : ℕ → List AdapterCall → List Operation
operations_from index [] = []
operations_from index (call ∷ calls) = operation_at index call ∷ operations_from (suc index) calls

abbrev pub chosen : Disposition → Disposition → Operation → List Operation
chosen permitted permitted op = op ∷ []
chosen permitted denied op = []
chosen denied permitted op = []
chosen denied denied op = op ∷ []

-- Those of them whose call has the disposition.
abbrev pub disposed_from : Disposition → ℕ → List AdapterCall → List Operation
disposed_from d index [] = []
disposed_from d index (call ∷ calls) =
    chosen d call.disposition (operation_at index call) ++ disposed_from d (suc index) calls

-- Two events for each call.
abbrev pub events_from : (Str → Str) → ℕ → List AdapterCall → List (Map Value)
events_from operation_text index [] = []
events_from operation_text index (call ∷ calls) =
    attempted_event operation_text (operation_at index call)
    ∷ disposition_event (operation_at index call) call.disposition
    ∷ events_from operation_text (suc index) calls

module _ (operation_text : Str → Str) where
  -- The event is of an operation that the account holds; a disposition, under that disposition.
  abbrev pub IsCovered : EvidenceOperations → Map Value → Type 0
  IsCovered ops body =
      ((op : Operation) × Memᴰ op ops.attempted × (body ≡ attempted_event operation_text op))
      ⊎ ((op : Operation) × (d : Disposition) × Memᴰ op (under d ops)
          × (body ≡ disposition_event op d))

  attempt-IsCovered :
      (op : Operation) (ops : EvidenceOperations) (body : Map Value)
      → IsCovered ops body
      → IsCovered (attempt op ops) body
  unfolding attempt
  attempt-IsCovered op ops body (inl (o, m, e)) = inl (o, append_left (op ∷ []) m, e)
  attempt-IsCovered op ops body (inr (o, permitted, m, e)) = inr (o, permitted, m, e)
  attempt-IsCovered op ops body (inr (o, denied, m, e)) = inr (o, denied, m, e)

  dispose-IsCovered :
      (d : Disposition) (op : Operation) (ops : EvidenceOperations) (body : Map Value)
      → IsCovered ops body
      → IsCovered (dispose d op ops) body
  unfolding dispose
  dispose-IsCovered permitted op ops body (inl c) = inl c
  dispose-IsCovered denied op ops body (inl c) = inl c
  dispose-IsCovered permitted op ops body (inr (o, permitted, m, e)) =
      inr (o, permitted, append_left (op ∷ []) m, e)
  dispose-IsCovered permitted op ops body (inr (o, denied, m, e)) = inr (o, denied, m, e)
  dispose-IsCovered denied op ops body (inr (o, permitted, m, e)) = inr (o, permitted, m, e)
  dispose-IsCovered denied op ops body (inr (o, denied, m, e)) =
      inr (o, denied, append_left (op ∷ []) m, e)

  disposed_here :
      (d : Disposition) (op : Operation) (ops : EvidenceOperations)
      → Memᴰ op (under d (dispose d op ops))
  unfolding dispose
  disposed_here permitted op ops = append_right ops.permitted (Memᴰ.head refl)
  disposed_here denied op ops = append_right ops.denied (Memᴰ.head refl)

  attempted_of_dispose :
      (d : Disposition) (op : Operation) (ops : EvidenceOperations)
      → (dispose d op ops).attempted ≡ ops.attempted
  unfolding dispose
  attempted_of_dispose permitted op ops = refl
  attempted_of_dispose denied op ops = refl

  -- What a recording adds to an account and to the list of what was to be emitted.
  record Extends (index : ℕ) (calls : List AdapterCall) (ops : EvidenceOperations)
      (log : List (Map Value)) (after : EvidenceOperations) (emitted : List (Map Value))
      (ended : Recorded) : Type 0 where
    covered : All (IsCovered ops) log → All (IsCovered after) emitted
    taken : List Operation
    rest : List Operation
    split : operations_from index calls ≡ taken ++ rest
    attempted : after.attempted ≡ ops.attempted ++ taken
    whole : ended ≡ complete → rest ≡ []
    disposed :
        ended ≡ complete
        → (d : Disposition) → under d after ≡ under d ops ++ disposed_from d index calls
    told : ended ≡ complete → emitted ≡ log ++ events_from operation_text index calls

  -- An account is sound, and whole where the recording is complete.
  pub record IsAccount (calls : List AdapterCall) (ops : EvidenceOperations)
      (log : List (Map Value)) (ended : Recorded) : Type 0 where
    pub covered : All (IsCovered ops) log
    pub unrecorded : List Operation
    pub attempted : operations_from 0 calls ≡ ops.attempted ++ unrecorded
    pub whole : ended ≡ complete → unrecorded ≡ []
    pub disposed : ended ≡ complete → (d : Disposition) → under d ops ≡ disposed_from d 0 calls
    pub told : ended ≡ complete → log ≡ events_from operation_text 0 calls

  covered_attempt :
      (op : Operation) (ops : EvidenceOperations) (log : List (Map Value))
      → All (IsCovered ops) log
      → All (IsCovered (attempt op ops)) (log ++ attempted_event operation_text op ∷ [])
  unfolding attempt
  covered_attempt op ops log h =
      All-append (IsCovered (attempt op ops)) log _
        (All-map (IsCovered ops) (IsCovered (attempt op ops)) log (attempt-IsCovered op ops) h)
        (inl (op, append_right ops.attempted (Memᴰ.head refl), refl), tt)

  covered_dispose :
      (d : Disposition) (op : Operation) (ops : EvidenceOperations) (log : List (Map Value))
      → All (IsCovered ops) log
      → All (IsCovered (dispose d op ops)) (log ++ disposition_event op d ∷ [])
  covered_dispose d op ops log h =
      All-append (IsCovered (dispose d op ops)) log _
        (All-map (IsCovered ops) (IsCovered (dispose d op ops)) log (dispose-IsCovered d op ops) h)
        (inr (op, d, disposed_here d op ops, refl), tt)

  stopped_attempt :
      (index : ℕ) (call : AdapterCall) (calls : List AdapterCall) (ops : EvidenceOperations)
      (log : List (Map Value)) (ended : Recorded)
      → ¬ (ended ≡ complete)
      → Extends index
          (call ∷ calls)
          ops
          log
          (attempt (operation_at index call) ops)
          (log ++ attempted_event operation_text (operation_at index call) ∷ [])
          ended
  unfolding attempt
  stopped_attempt index call calls ops log ended stop = record {
    covered = covered_attempt (operation_at index call) ops log;
    taken = operation_at index call ∷ [];
    rest = operations_from (suc index) calls;
    split = refl;
    attempted = refl;
    whole = λ e. absurd (stop e);
    disposed = λ e. absurd (stop e);
    told = λ e. absurd (stop e);
  }

  stopped_dispose :
      (index : ℕ) (call : AdapterCall) (calls : List AdapterCall) (ops : EvidenceOperations)
      (log : List (Map Value)) (ended : Recorded)
      → ¬ (ended ≡ complete)
      → let op = operation_at index call in
        Extends index
          (call ∷ calls)
          ops
          log
          (dispose call.disposition op (attempt op ops))
          ((log ++ attempted_event operation_text op ∷ [])
            ++ disposition_event op call.disposition ∷ [])
          ended
  unfolding attempt
  stopped_dispose index call calls ops log ended stop =
      let op = operation_at index call in
      record {
        covered = λ h.
            covered_dispose call.disposition op (attempt op ops) _ (covered_attempt op ops log h);
        taken = op ∷ [];
        rest = operations_from (suc index) calls;
        split = refl;
        attempted = attempted_of_dispose call.disposition op (attempt op ops);
        whole = λ e. absurd (stop e);
        disposed = λ e. absurd (stop e);
        told = λ e. absurd (stop e);
      }

  under_first :
      (d e : Disposition) (op : Operation) (ops : EvidenceOperations) (rest : List Operation)
      → under d (dispose e op (attempt op ops)) ++ rest ≡ under d ops ++ (chosen d e op ++ rest)
  unfolding attempt dispose
  under_first permitted permitted op ops rest = append_assoc ops.permitted (op ∷ []) rest
  under_first permitted denied op ops rest = refl
  under_first denied permitted op ops rest = refl
  under_first denied denied op ops rest = append_assoc ops.denied (op ∷ []) rest

  went_on :
      (index : ℕ) (call : AdapterCall) (calls : List AdapterCall) (ops : EvidenceOperations)
      (log : List (Map Value)) (after : EvidenceOperations) (emitted : List (Map Value))
      (ended : Recorded)
      → let op = operation_at index call in
        Extends
          (suc index)
          calls
          (dispose call.disposition op (attempt op ops))
          ((log ++ attempted_event operation_text op ∷ [])
            ++ disposition_event op call.disposition ∷ [])
          after
          emitted
          ended
        → Extends index (call ∷ calls) ops log after emitted ended
  unfolding attempt
  went_on index call calls ops log after emitted ended x =
      let op = operation_at index call in
      record {
        covered = λ h.
            x.covered (
              covered_dispose call.disposition op (attempt op ops) _
                (covered_attempt op ops log h));
        taken = op ∷ x.taken;
        rest = x.rest;
        split = ap (λ os. op ∷ os) x.split;
        attempted =
            x.attempted
            ∙ ap (λ os. os ++ x.taken) (attempted_of_dispose call.disposition op (attempt op ops))
            ∙ append_assoc ops.attempted (op ∷ []) x.taken;
        whole = x.whole;
        disposed = λ e d.
            x.disposed e d
            ∙ under_first d call.disposition op ops (disposed_from d (suc index) calls);
        told = λ e.
            x.told e
            ∙ append_assoc (log ++ attempted_event operation_text op ∷ []) _ _
            ∙ append_assoc log _ _;
      }

stopped_or_next :
    {S E : Type 0} (P : Recording S → Type 0) (ops : EvidenceOperations) (p : S × EmitOutcome E)
    (next : S → Recording S)
    → ((ended : Recorded) → ¬ (ended ≡ complete) → P (ops, (p.0, ended)))
    → P (next p.0)
    → P (unless_failed ops p next)
stopped_or_next P ops (s, ok v) next h k = k
stopped_or_next P ops (s, not_ok reason detail) next h k = h _ (λ e. absurd (ground arith))
stopped_or_next P ops (s, throws why) next h k = h _ (λ e. absurd (ground arith))
stopped_or_next P ops (s, goes_on) next h k = h _ (λ e. absurd (ground arith))

module _ {S E : Type 0} (operation_text : Str → Str)
    (emit : Map Value → S → S × EmitOutcome E) where
  -- What was done extends the account as far as the recording went.
  abbrev ExtendsBy :
      ℕ
      → List AdapterCall
      → EvidenceOperations
      → List (Map Value)
      → Recording (S × List (Map Value))
      → Type 0
  ExtendsBy index calls ops log r = Extends operation_text index calls ops log r.0 r.1.0.1 r.1.1

  record_from-Extends :
      (index : ℕ) (calls : List AdapterCall) (ops : EvidenceOperations) (s : S)
      (log : List (Map Value))
      → ExtendsBy index calls ops log
          (record_from operation_text (logged emit) index calls ops (s, log))
  unfolding record_from
  record_from-Extends index [] ops s log = record {
    covered = λ h. h;
    taken = [];
    rest = [];
    split = refl;
    attempted = sym (append-nil ops.attempted);
    whole = λ e. refl;
    disposed = λ e d. sym (append-nil (under d ops));
    told = λ e. sym (append-nil log);
  }
  record_from-Extends index (call ∷ calls) ops s log =
      let op = operation_at index call in
      let attempted = attempt op ops in
      let disposed = dispose call.disposition op attempted in
      let first = attempted_event operation_text op in
      let second = disposition_event op call.disposition in
      let p = logged emit first (s, log) in
      let q = logged emit second p.0 in
      let IsNext = ExtendsBy index (call ∷ calls) ops log in
      stopped_or_next IsNext attempted p _
        (λ ended stop. stopped_attempt operation_text index call calls ops log ended stop)
        (stopped_or_next IsNext disposed q
          (record_from operation_text (logged emit) (suc index) calls disposed)
          (λ ended stop. stopped_dispose operation_text index call calls ops log ended stop)
          (went_on operation_text index call calls ops log _ _ _
            (record_from-Extends (suc index) calls disposed q.0.0 q.0.1)))

  -- What stands in the terminal evidence about calls covers the event stream, however the recording
  -- ends, and if an error cuts it short too: every event that the emitter was asked for is of an
  -- operation in the account, and a disposition of an operation under that disposition; the attempted
  -- operations are those of the first calls that the adapter reported, in their order and each under
  -- the number of its call. A recording that is complete accounts for every call, permitted and denied
  -- apart, and asked for the two events of each, in order.
  pub record_calls-IsAccount :
      (calls : List AdapterCall) (s : S)
      → let r = record_calls operation_text (logged emit) calls (s, []) in
        IsAccount operation_text calls r.0 r.1.0.1 r.1.1
  unfolding record_calls
  record_calls-IsAccount calls s =
      let x = record_from-Extends 0 calls empty_operations s [] in
      record {
        covered = x.covered tt;
        unrecorded = x.rest;
        attempted = x.split ∙ ap (λ os. os ++ x.rest) (sym x.attempted);
        whole = x.whole;
        disposed = λ e d. x.disposed e d ∙ ap (λ os. os ++ disposed_from d 0 calls) (nothing d);
        told = x.told;
      }
    where
      nothing : (d : Disposition) → under d empty_operations ≡ []
      nothing permitted = refl
      nothing denied = refl
