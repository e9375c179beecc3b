-- ===== src/Production/Evolution.antt =====
-- production/evolution.py: CanaryController and LearningLoop. The arithmetic of floats, with the mean of a
-- list, is a parameter. Counts and percentages are not negative.
use niceone_obsidian.Prelude.{
  ℕ, String, Bool, false, not, ◌&&◌, List, [], ◌∷◌, map, leb, nat_eq, if◌then◌else◌,
}
use niceone_obsidian.Prelude.Values.{Value}
use niceone_obsidian.Prelude.Exec.{Result, ok, err}
use niceone_obsidian.Kernel.Errors.{Exception, exception, value_error}

-- Floats: `a / b` of counts, `0.0`, `a <= b`, `statistics.mean`, and a float as a value of evidence.
pub record Rates : Type 1 where
  pub Rate : Type 0
  pub quotient : ℕ → ℕ → Rate
  pub zero_rate : Rate
  pub at_most : Rate → Rate → Bool
  pub mean : List Rate → Rate
  pub as_value : Rate → Value

module _ (f : Rates) where
  pub record Measurement : Type 0 where
    pub name : String
    pub value : f.Rate

  pub record Evaluation : Type 0 where
    pub candidate : String
    pub score : f.Rate
    pub baseline : f.Rate
    pub passed : Bool
    pub reason : String

  pub record CanaryDecision : Type 0 where
    pub candidate : String
    pub traffic_percent : ℕ
    pub success_rate : f.Rate
    pub latency_ms : f.Rate
    pub passed : Bool

  pub record CanaryController : Type 0 where
    pub minimum_success_rate : f.Rate
    pub maximum_latency_ms : f.Rate

abbrev pub success_rate_of : (f : Rates) → ℕ → ℕ → f.Rate
success_rate_of f successes total =
    if nat_eq total 0 then f.zero_rate else f.quotient successes total

module _ {f : Rates} where
  abbrev pub score_values : String → f.Rate → f.Rate → List f.Rate → Evaluation f
  score_values candidate baseline minimum [] = record {
    candidate = candidate;
    score = f.zero_rate;
    baseline = baseline;
    passed = false;
    reason = "no measurements";
  }
  score_values candidate baseline minimum (v ∷ vs) = record {
    candidate = candidate;
    score = f.mean (v ∷ vs);
    baseline = baseline;
    passed = f.at_most minimum (f.mean (v ∷ vs));
    reason = "score gate";
  }

  -- LearningLoop.evaluate
  unfoldable pub evaluate : String → List (Measurement f) → f.Rate → f.Rate → Evaluation f
  evaluate candidate ms baseline minimum =
      score_values candidate baseline minimum (map (λ m. m.value) ms)

  -- LearningLoop.candidate
  unfoldable pub candidate_state : Evaluation f → Bool → String
  candidate_state e approved =
      if not e.passed then "REJECTED" else if not approved then "PENDING_APPROVAL" else "APPROVED"

  -- The test of `decide`.
  abbrev pub passes : CanaryController f → ℕ → ℕ → f.Rate → Bool
  passes c successes total latency =
      f.at_most c.minimum_success_rate (success_rate_of f successes total)
      && f.at_most latency c.maximum_latency_ms

  -- CanaryController.decide
  unfoldable pub decide :
      CanaryController f → String → ℕ → ℕ → ℕ → f.Rate → Result Exception (CanaryDecision f)
  decide c candidate traffic successes total latency =
      if not (leb 1 traffic && leb traffic 100)
      then err (exception value_error "traffic_percent must be between 1 and 100")
      else ok (record {
        candidate = candidate;
        traffic_percent = traffic;
        success_rate = success_rate_of f successes total;
        latency_ms = latency;
        passed = passes c successes total latency;
      })
