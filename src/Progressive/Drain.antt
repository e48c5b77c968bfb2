-- ===== src/Progressive/Drain.antt =====
-- routeDrainRemaining and waitForRouteDrain: how long the removed endpoints of a route still drain.
use steadystate.Prelude.{
  ℕ, ◌+◌, ◌-◌, Bytes, get_or_empty, bytes_eq, format_int, parse_int, int64_limit, Option, none,
  some, List, [], ◌∷◌, ◌++◌, ltb, ◌==◌, if◌then◌else◌,
}
use steadystate.Prelude.Int.{pos, eqb_ℤ}
use steadystate.Status.Observe.{Route}

-- The `time` package: an instant is its nanoseconds since the beginning of year 0, the first that
-- RFC 3339 can write.
pub record Clock : Type 0 where
  pub format : ℕ → Bytes  -- Time.Format(time.RFC3339Nano)
  pub parse : Bytes → Option ℕ  -- time.Parse(time.RFC3339Nano, …)

-- `strings.SplitN(s, ",", 2)`; `none` where there are not two parts.
unfoldable pub cut_comma : Bytes → Option (Bytes × Bytes)
cut_comma [] = none
cut_comma (c ∷ s) =
    let rest = cut_comma s in
    if c == b',' then some ([], s) else elim rest [ none ↦ none | some (a, b) ↦ some (c ∷ a, b) ]

-- `delay - now.Sub(startedAt)`, and 0 where that is negative: a Duration wraps round at 2 ^ 63.
unfoldable pub drain_left : ℕ → ℕ → ℕ → ℕ
drain_left delay started now =
    if ltb now started
    then (let ahead = delay + (started - now) in if ltb ahead int64_limit then ahead else 0)
    else delay - (now - started)

unfoldable pub stamped : Clock → Route → ℕ → ℕ → Bytes × Bytes → Option ℕ
stamped clock route delay now (generation, started) = elim (parse_int generation) [
  | none ↦ none
  | some g ↦
      if eqb_ℤ g (pos route.generation)
      then elim (clock.parse started) [ none ↦ none | some t ↦ some (drain_left delay t now) ]
      else none
]

-- routeDrainRemaining; `none` is a drain that is not tracked. All durations are in nanoseconds.
unfoldable pub route_drain_remaining : Clock → Route → Bytes → ℕ → ℕ → Option ℕ
route_drain_remaining clock route annotation delay now =
    elim (cut_comma (get_or_empty annotation route.annotations)) [
      | none ↦ none
      | some parts ↦ stamped clock route delay now parts
    ]

-- `annotations[key] = value`.
unfoldable pub set_key : Bytes → Bytes → List (Bytes × Bytes) → List (Bytes × Bytes)
set_key k v [] = (k, v) ∷ []
set_key k v ((j, w) ∷ m) = if bytes_eq j k then (j, v) ∷ m else (j, w) ∷ set_key k v m

-- `fmt.Sprintf("%d,%s", route.Generation, now.Format(time.RFC3339Nano))`.
unfoldable pub drain_stamp : Clock → Route → ℕ → Bytes
drain_stamp clock route now = format_int route.generation ++ (b',' ∷ clock.format now)

unfoldable pub with_stamp : Clock → Route → Bytes → ℕ → Route
with_stamp clock route annotation now = record route {
  annotations = set_key annotation (drain_stamp clock route now) route.annotations;
}
