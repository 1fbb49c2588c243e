-- ===== src/Acquisition/Once.antt =====
-- services/runner-control/src/acquisition/tokens.ts: how often the host is read.
use secure_home_agent_platfo.Prelude.{
  ◌≡◌, refl, ap, ◌∙◌, ℕ, suc, true, false, List, [], ◌∷◌, ◌++◌, ite, if◌then◌else◌, Str,
  Str-discrete, arith,
}
use secure_home_agent_platfo.RunState.Journal.{AcquisitionEpoch}
use secure_home_agent_platfo.Acquisition.{
  AcquisitionSet, Reading, has, without, to_set, new, consume, consume_all,
}

abbrev pub count : Str → List Str → ℕ
count s [] = 0
count s (t ∷ ts) = ite (Str-discrete t s) (suc (count s ts)) (count s ts)

-- A port that also writes down each source that is read of it.
abbrev pub logging :
    {Host : Type 0}
    → (Str → AcquisitionEpoch → Str → Host → Host × Reading)
    → Str
    → AcquisitionEpoch
    → Str
    → Host × List Str
    → (Host × List Str) × Reading
logging read run_id epoch source (host, log) =
    let (host', reading) = read run_id epoch source host in ((host', source ∷ log), reading)

pub has-append :
    (s t : Str) (ss : List Str)
    → has s (ss ++ t ∷ []) ≡ (if has s ss then true else ite (Str-discrete t s) true false)
unfolding has
has-append s t [] = refl
has-append s t (u ∷ us) = ground (arith, has-append s t us)

has-without :
    (s t : Str) (ss : List Str) → has s (without t ss) ≡ ite (Str-discrete t s) false (has s ss)
unfolding has without
has-without s t [] = ground arith
has-without s t (u ∷ us) = ground (arith, has-without s t us)

has-to_set : (s : Str) (ss : List Str) → has s (to_set ss) ≡ has s ss
unfolding has to_set
has-to_set s [] = refl
has-to_set s (t ∷ ts) = ground (arith, has-without s t (to_set ts), has-to_set s ts)

module _ {Host : Type 0} (read : Str → AcquisitionEpoch → Str → Host → Host × Reading) where
  -- One consumption: whether the source is still outstanding, whether it is spent, and its reads.
  remaining-consume :
      (s t : Str) (a : AcquisitionSet) (h : Host × List Str)
      → (if has s (consume (logging read) t a h).0.consumed
          then false
          else has s (consume (logging read) t a h).0.remaining)
        ≡ (if has s a.consumed then false else ite (Str-discrete t s) false (has s a.remaining))
  unfolding consume
  remaining-consume s t a h = ground (arith, has-append s t a.consumed, has-without s t a.remaining)

  count-consume :
      (s t : Str) (a : AcquisitionSet) (h : Host × List Str)
      → count s (consume (logging read) t a h).1.0.1 ≡ (
          if has s a.consumed
          then count s h.1
          else ite
              (Str-discrete t s)
              (if has s a.remaining then suc (count s h.1) else count s h.1)
              (count s h.1))
  unfolding consume
  count-consume s t a h = ground arith

  count-consume_all :
      (s : Str) (ss : List Str) (a : AcquisitionSet) (h : Host × List Str)
      → count s (consume_all (logging read) ss a h).1.1 ≡ (
          if has s ss
          then (if has s a.consumed
              then count s h.1
              else if has s a.remaining
              then suc (count s h.1)
              else count s h.1)
          else count s h.1)
  unfolding consume_all has
  count-consume_all s [] a h = refl
  count-consume_all s (t ∷ ts) a h =
      let (a', (h', o)) = consume (logging read) t a h in
      ground (arith, count-consume_all s ts a' h', count-consume s t a h, remaining-consume s t a h)

  -- Whatever sources are asked for, in whatever order and however often, and whatever the host
  -- answers, a source is read exactly once if it was declared and asked for, and otherwise never.
  pub count-consume_all-new :
      (run_id : Str) (epoch : AcquisitionEpoch) (sources ss : List Str) (s : Str) (host : Host)
      → count s (consume_all (logging read) ss (new run_id epoch sources) (host, [])).1.1
        ≡ (if has s ss then (if has s sources then 1 else 0) else 0)
  unfolding new has
  count-consume_all-new run_id epoch sources ss s host =
      count-consume_all s ss (new run_id epoch sources) (host, [])
      ∙ ap (λ b. if has s ss then (if b then 1 else 0) else 0) (has-to_set s sources)
