-- ===== src/Acquisition/Epochs/Reads.antt =====
-- acquisition/epochs.ts: what an epoch reads, and what it has when it succeeds.
use secure_home_agent_platfo.Prelude.{
  ◌≡◌, refl, sym, ap, subst, ◌∙◌, Option, none, some, List, [], ◌∷◌, ◌++◌, map, append-nil,
  append_assoc, Str, arith,
}
use secure_home_agent_platfo.Prelude.Maps
use secure_home_agent_platfo.Prelude.Maps.{Map, get-set}
use secure_home_agent_platfo.RunState.Journal.{AcquisitionEpoch, JournaledAcquisition}
use secure_home_agent_platfo.Core.Capture.{
  CapturedAuthority, captured, capture_refused, capture_fault,
}
use secure_home_agent_platfo.Acquisition.{
  AuthorityBytes, AcquisitionSet, AcquisitionError, EpochValue, AcquisitionOutcome, ok, not_ok,
  run_interrupted, Reading, consume, has,
}
use secure_home_agent_platfo.Acquisition.Epochs.{
  Epoch, Progress, on_capture, on_journal, refused_after, on_consumed, read_entry, refused_entry,
  on_source, at_end, sources, run_epoch,
}
use secure_home_agent_platfo.Acquisition.Epochs.Noting.{
  is_captured, noting, aside, Reads, Kept, Noted, consume-Noted, halted, Kept-set,
}

module _ {Host T : Type 0} (read : Str → AcquisitionEpoch → Str → Host → Host × Reading)
    (journal : JournaledAcquisition → Host → Host × Option Str) (should_stop : Host → Option Str)
    (capture : Str → AuthorityBytes → CapturedAuthority T) where
  -- The continuation after a source that was captured.
  abbrev Continues :
      List Str
      → List Str
      → (Progress T → AcquisitionSet → Host × List Str → Epoch (Host × List Str) T)
      → Type 0
  Continues required log again =
      (p : Progress T) (a : AcquisitionSet) (h : Host)
      → Kept p log
      → Reads required (again p a (h, log))

  on_capture-Reads :
      (again : Progress T → AcquisitionSet → Host × List Str → Epoch (Host × List Str) T)
      (required pre names : List Str) (name : Str) (v : EpochValue) (p : Progress T)
      (a : AcquisitionSet) (h : Host) (c : CapturedAuthority T)
      → required ≡ (pre ++ name ∷ []) ++ names
      → Continues required (pre ++ name ∷ []) again
      → Kept p pre
      → v.source ≡ name
      → Reads required (
          on_capture
            (noting read)
            (aside journal)
            (λ x. should_stop x.0)
            capture
            again
            name
            v
            p
            a
            (h, pre ++ name ∷ [])
            c)
  unfolding on_capture
  on_capture-Reads again required pre names name v p a h (capture_fault f) e k i s =
      halted required _ names a h _ e (λ x y. cc)
  on_capture-Reads again required pre names name v p a h (capture_refused w r) e k i s =
      halted required _ names a h _ e (λ x y. cc)
  on_capture-Reads again required pre names name v p a h (captured w d id doc) e k i s =
      k _ a h (Kept-set p pre name v w d id doc i s)

  on_journal-Reads :
      (again : Progress T → AcquisitionSet → Host × List Str → Epoch (Host × List Str) T)
      (required pre names : List Str) (name : Str) (v : EpochValue) (p : Progress T)
      (a : AcquisitionSet) (h : Host) (o : Option Str)
      → required ≡ (pre ++ name ∷ []) ++ names
      → Continues required (pre ++ name ∷ []) again
      → Kept p pre
      → v.source ≡ name
      → Reads required (
          on_journal
            (noting read)
            (aside journal)
            (λ x. should_stop x.0)
            capture
            again
            name
            v
            p
            a
            ((h, pre ++ name ∷ []), o))
  unfolding on_journal
  on_journal-Reads again required pre names name v p a h (some why) e k i s =
      halted required _ names a h _ e (λ x y. cc)
  on_journal-Reads again required pre names name v p a h none e k i s =
      on_capture-Reads again required pre names name v p a h (capture name v.bytes) e k i s

  refused_after-Reads :
      (required pre names : List Str) (x : AcquisitionError) (a : AcquisitionSet) (h : Host)
      (o : Option Str)
      → required ≡ pre ++ names
      → Reads required (
          refused_after
            (noting read)
            (aside journal)
            (λ y. should_stop y.0)
            capture
            x
            a
            ((h, pre), o))
  unfolding refused_after
  refused_after-Reads required pre names x a h (some why) e =
      halted required pre names a h _ e (λ y z. cc)
  refused_after-Reads required pre names x a h none e =
      halted required pre names a h _ e (λ y z. cc)

  on_consumed-Reads :
      (again : Progress T → AcquisitionSet → Host × List Str → Epoch (Host × List Str) T)
      (required pre names : List Str) (name : Str) (p : Progress T) (a : AcquisitionSet) (h : Host)
      (o : AcquisitionOutcome) (log : List Str)
      → required ≡ pre ++ name ∷ names
      → Continues required (pre ++ name ∷ []) again
      → Kept p pre
      → Noted name pre o log
      → Reads required (
          on_consumed
            (noting read)
            (aside journal)
            (λ x. should_stop x.0)
            capture
            again
            name
            p
            a
            (h, log)
            o)
  unfolding on_consumed
  on_consumed-Reads again required pre names name p a h (run_interrupted why) log e k i n =
      halted required log names a h _
        (e ∙ (sym (append_assoc pre (name ∷ []) names) ∙ ap (λ l. l ++ names) (sym n))) (λ y z. cc)
  on_consumed-Reads again required pre names name p a h (not_ok x) log e k i n =
      let (h', o) = journal (refused_entry a.epoch name x) h in
      refused_after-Reads required log (name ∷ names) x a h' o
        (e ∙ ap (λ l. l ++ name ∷ names) (sym n))
  on_consumed-Reads again required pre names name p a h (ok v) log e k i (s, n) =
      let (h', o) = journal (read_entry a.epoch name v.bytes) h in
      subst
        (λ l. Reads required (
          on_journal (noting read) (aside journal) (λ x. should_stop x.0) capture again name v p a
            ((h', l), o)))
        (sym n)
        (on_journal-Reads again required pre names name v p a h' o
          (e ∙ sym (append_assoc pre (name ∷ []) names)) k i s)

  on_source-Reads :
      (again : Progress T → AcquisitionSet → Host × List Str → Epoch (Host × List Str) T)
      (required pre names : List Str) (name : Str) (p : Progress T) (a : AcquisitionSet) (h : Host)
      (o : Option Str)
      → required ≡ pre ++ name ∷ names
      → Continues required (pre ++ name ∷ []) again
      → Kept p pre
      → Reads required (
          on_source
            (noting read)
            (aside journal)
            (λ x. should_stop x.0)
            capture
            again
            name
            p
            a
            (h, pre)
            o)
  unfolding on_source
  on_source-Reads again required pre names name p a h (some why) e k i =
      halted required pre (name ∷ names) a h _ e (λ y z. cc)
  on_source-Reads again required pre names name p a h none e k i =
      let r = consume (noting read) name a (h, pre) in
      on_consumed-Reads again required pre names name p r.0 r.1.0.0 r.1.1 r.1.0.1 e k i
        (consume-Noted read name a h pre)

  at_end-Reads :
      (pre : List Str) (p : Progress T) (a : AcquisitionSet) (h : Host) (o : Option Str)
      → Kept p pre
      → Reads pre
          (at_end (noting read) (aside journal) (λ x. should_stop x.0) capture p a (h, pre) o)
  unfolding at_end
  at_end-Reads pre p a h (some why) i = halted pre pre [] a h _ (sym (append-nil pre)) (λ y z. cc)
  at_end-Reads pre p a h none i = (
    [],
    (
      sym (append-nil pre),
      λ s v e.
          let es : p.snapshots ≡ s = ground arith in
          let ev : p.values ≡ v = ground arith in
          (
            refl,
            (
              ap (map (λ x. x.source)) (sym ev) ∙ i.0,
              λ n k. ap (λ m. is_captured (Maps.get n m)) (sym es) ∙ i.1 n k,
            ),
          ),
    ),
  )

  sources-Reads :
      (required pre names : List Str) (p : Progress T) (a : AcquisitionSet) (h : Host)
      → required ≡ pre ++ names
      → Kept p pre
      → Reads required
          (sources (noting read) (aside journal) (λ x. should_stop x.0) capture names p a (h, pre))
  unfolding sources
  sources-Reads required pre [] p a h e i =
      subst
        (λ r. Reads r (
          at_end (noting read) (aside journal) (λ x. should_stop x.0) capture p a (h, pre)
            (should_stop h)))
        (sym (e ∙ append-nil pre)) (at_end-Reads pre p a h (should_stop h) i)
  sources-Reads required pre (name ∷ names) p a h e i =
      on_source-Reads (sources (noting read) (aside journal) (λ x. should_stop x.0) capture names)
        required pre names name p a h (should_stop h) e
        (λ q b g j.
          sources-Reads required (pre ++ name ∷ []) names q b g
            (e ∙ sym (append_assoc pre (name ∷ []) names)) j)
        i

  -- Whatever the host, the journal and the caller answer, and whatever the core makes of the bytes,
  -- an epoch reads a beginning of the required sources, in their order; when it is established it has read them all, its values are theirs in order, and
  -- every one of them has a snapshot that the core captured.
  pub run_epoch-Reads :
      (required : List Str) (a : AcquisitionSet) (h : Host)
      → Reads required (
          run_epoch (noting read) (aside journal) (λ x. should_stop x.0) capture required a (h, []))
  unfolding run_epoch has
  run_epoch-Reads required a h =
      sources-Reads required [] required (record { values = []; snapshots = [] }) a h refl
        (refl, λ n k. absurd (ground arith))
