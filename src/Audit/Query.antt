-- ===== src/Audit/Query.antt =====
-- internal/audit/query.go. A line of the log is empty, malformed or an event. The two calls of
-- `time.Parse` are the parameter `Times`.
use mathlib.Core.Bool.{false≢true}
use crispy_garbanzo.Base.{
  ℕ, zero, suc, ◌-◌, String, Bool, true, false, ◌&&◌, ◌||◌, not, Option, none, some, List, [], ◌∷◌,
  ◌++◌, ◌==◌, ◌≡◌, ◌≢◌, ◌≤◌, ◌↔◌, Option-cases, ◌⊎◌, ap, sym, ◌∙◌, refl, arith, eq_iff,
  if◌then◌else◌, ltb, eqb, length, drop, length-drop, min, Bool-cases, inl, inr,
}
use crispy_garbanzo.Audit.Event.{Event}

pub data Line : Type 0 where
  blank malformed : Line
  event : Event → Line

pub record Filter : Type 0 where
  pub agent_id : String
  pub decision : String
  pub since : String
  pub limit : ℕ

-- `time.Parse` of the filter's time (RFC3339) and of a time stamp (RFC3339Nano), as nanoseconds; time
-- zero is Go's zero time
pub record Times : Type 0 where
  pub parse_since : String → Option ℕ
  pub parse_stamp : String → Option ℕ

module _ (t : Times) where
  -- `sinceT`: zero if there is no filter or it does not parse
  unfoldable pub since_time : Filter → ℕ
  since_time f = if f.since == "" then 0 else elim (t.parse_since f.since) [ none ↦ 0 | some s ↦ s ]

  unfoldable pub too_early : ℕ → Event → Bool
  too_early since e =
      if not (ltb 0 since) || e.timestamp == ""
      then false
      else elim (t.parse_stamp e.timestamp) [ none ↦ false | some s ↦ ltb s since ]

  -- the loop over the lines; each `continue` goes on with the rest
  unfoldable pub matching : Filter → ℕ → List Line → List Event
  unfolding too_early
  matching f since [] = []
  matching f since (blank ∷ lines) = matching f since lines
  matching f since (malformed ∷ lines) = matching f since lines
  matching f since (event e ∷ lines) =
      let rest = matching f since lines in
      if not (f.agent_id == "") && not (e.agent_id == f.agent_id)
      then rest
      else if not (f.decision == "") && not (e.decision == f.decision)
      then rest
      else if too_early since e
      then rest
      else e ∷ rest

  unfoldable pub tail_of : ℕ → List Event → List Event
  tail_of limit matched =
      if ltb 0 limit && ltb limit (length matched)
      then drop (length matched - limit) matched
      else matched

  -- `none` is a log that does not exist
  unfoldable pub query : Option (List Line) → Filter → List Event
  unfolding matching tail_of since_time
  query none f = []
  query (some lines) f = tail_of f.limit (matching f (since_time f) lines)

  -- The time of a filter: 0 if it gives none or one that does not parse.
  abbrev pub Since : Filter → ℕ → Type 0
  Since f since =
      ((f.since ≡ "") × (since ≡ 0))
      ⊎ ((f.since ≢ "") × (t.parse_since f.since ≡ none) × (since ≡ 0))
      ⊎ ((f.since ≢ "") × (t.parse_since f.since ≡ some since))

  -- The event is not before the time, unless there is none, or the event's stamp is missing or does not parse.
  abbrev pub InTime : ℕ → Event → Type 0
  InTime since e =
      (since ≡ 0)
      ⊎ (e.timestamp ≡ "")
      ⊎ (t.parse_stamp e.timestamp ≡ none)
      ⊎ ((stamp : ℕ) × (t.parse_stamp e.timestamp ≡ some stamp) × (since ≤ stamp))

  since_time-Since : (f : Filter) → Since f (since_time f)
  unfolding since_time
  since_time-Since f = elim (Bool-cases (f.since == "")) [
    | inl empty ↦ rw empty (inl ((eq_iff f.since "").0 empty, refl))
    | inr given ↦
        let n : f.since ≢ "" = λ e. false≢true (sym given ∙ (eq_iff f.since "").1 e) in
        elim (Option-cases (t.parse_since f.since)) [
          | inl bad ↦ rw (given, bad) (inr (inl (n, refl, refl)))
          | inr (s, good) ↦ rw (given, good) (inr (inr (n, refl)))
        ]
  ]

  too_early_iff : (since : ℕ) (e : Event) → (too_early since e ≡ false) ↔ InTime since e
  unfolding too_early
  too_early_iff since e = (
    λ h. elim (Option-cases (t.parse_stamp e.timestamp)) [
      | inl bad ↦ inr (inr (inl bad))
      | inr (s, good) ↦ ground (arith, eq_iff e.timestamp "")
    ],
    λ h. ground (arith, eq_iff e.timestamp ""),
  )

  -- The event passes the filter.
  pub record Passes (f : Filter) (since : ℕ) (e : Event) : Type 0 where
    pub by_agent : (f.agent_id ≡ "") ⊎ (e.agent_id ≡ f.agent_id)
    pub by_decision : (f.decision ≡ "") ⊎ (e.decision ≡ f.decision)
    pub by_time : InTime since e

  -- The events of a log that pass the filter, in their order.
  pub data Selects (f : Filter) (since : ℕ) : List Line → List Event → Type 0 where
    done : Selects f since [] []
    skip_blank :
        {ls : List Line} {es : List Event} → Selects f since ls es → Selects f since (blank ∷ ls) es
    skip_malformed :
        {ls : List Line} {es : List Event}
        → Selects f since ls es
        → Selects f since (malformed ∷ ls) es
    keep :
        {e : Event} {ls : List Line} {es : List Event}
        → Passes f since e
        → Selects f since ls es
        → Selects f since (event e ∷ ls) (e ∷ es)
    leave :
        {e : Event} {ls : List Line} {es : List Event}
        → ¬ Passes f since e
        → Selects f since ls es
        → Selects f since (event e ∷ ls) es

  passes : Filter → ℕ → Event → Bool
  passes f since e =
      (f.agent_id == "" || e.agent_id == f.agent_id)
      && ((f.decision == "" || e.decision == f.decision) && not (too_early since e))

  passes_sound : (f : Filter) (since : ℕ) (e : Event) → passes f since e ≡ true → Passes f since e
  unfolding passes
  passes_sound f since e h = record {
    by_agent = ground (arith, eq_iff f.agent_id "", eq_iff e.agent_id f.agent_id);
    by_decision = ground (arith, eq_iff f.decision "", eq_iff e.decision f.decision);
    by_time = (too_early_iff since e).0 (ground arith);
  }

  passes_complete :
      (f : Filter) (since : ℕ) (e : Event) → Passes f since e → passes f since e ≡ true
  unfolding passes
  passes_complete f since e p = ground (
    arith,
    eq_iff f.agent_id "",
    eq_iff e.agent_id f.agent_id,
    eq_iff f.decision "",
    eq_iff e.decision f.decision,
    p.by_agent,
    p.by_decision,
    (too_early_iff since e).1 p.by_time,
  )

  matching-event :
      (f : Filter) (since : ℕ) (e : Event) (ls : List Line)
      → matching f since (event e ∷ ls)
        ≡ (if passes f since e then e ∷ matching f since ls else matching f since ls)
  unfolding matching passes
  matching-event f since e ls = ground arith

  matching-Selects :
      (f : Filter) (since : ℕ) (ls : List Line) → Selects f since ls (matching f since ls)
  unfolding matching
  matching-Selects f since [] = done
  matching-Selects f since (blank ∷ ls) = skip_blank (matching-Selects f since ls)
  matching-Selects f since (malformed ∷ ls) = skip_malformed (matching-Selects f since ls)
  matching-Selects f since (event e ∷ ls) = elim (Bool-cases (passes f since e)) [
    | inl p ↦ rw (matching-event, p) (keep (passes_sound f since e p) (matching-Selects f since ls))
    | inr n ↦
        rw (matching-event, n)
          (leave (λ p. absurd (false≢true (sym n ∙ passes_complete f since e p)))
            (matching-Selects f since ls))
  ]

take : ℕ → List Event → List Event
take zero es = []
take (suc n) [] = []
take (suc n) (e ∷ es) = e ∷ take n es

take-append-drop : (n : ℕ) (es : List Event) → es ≡ take n es ++ drop n es
unfolding take
take-append-drop zero es = refl
take-append-drop (suc n) [] = refl
take-append-drop (suc n) (e ∷ es) = ap (λ l. e ∷ l) (take-append-drop n es)

-- what `tail_of` cuts off
front_of : ℕ → List Event → List Event
front_of limit es = if ltb 0 limit && ltb limit (length es) then take (length es - limit) es else []

front-tail_of :
    (t : Times) (limit : ℕ) (es : List Event) → es ≡ front_of limit es ++ tail_of t limit es
unfolding front_of tail_of
front-tail_of t limit es = ground (arith, take-append-drop (length es - limit) es)

length-query :
    (t : Times) (limit : ℕ) (es : List Event)
    → length (tail_of t limit es) ≡ (if eqb limit 0 then length es else min limit (length es))
unfolding tail_of
length-query t limit es = ground (arith, length-drop (length es - limit) es)

-- A query gives the last of the events of the log that pass the filter, in the log's order: all of
-- them if the limit is 0, and else as many as the limit allows. Without a time that parses the filter
-- takes every time, and an event whose own time is missing or does not parse passes.
pub query_lem :
    (t : Times) (lines : List Line) (f : Filter)
    → (since : ℕ) × Since t f since
      × (all_matching : List Event) × Selects t f since lines all_matching
      × (front : List Event) × (all_matching ≡ front ++ query t (some lines) f)
      × (length (query t (some lines) f)
          ≡ (if eqb f.limit 0 then length all_matching else min f.limit (length all_matching)))
unfolding query
query_lem t lines f = (
  since_time t f,
  since_time-Since t f,
  matching t f (since_time t f) lines,
  matching-Selects t f (since_time t f) lines,
  front_of f.limit (matching t f (since_time t f) lines),
  front-tail_of t f.limit (matching t f (since_time t f) lines),
  length-query t f.limit _,
)
