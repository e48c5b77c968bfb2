-- ===== src/Progressive/Laws/Drain.antt =====
-- What the stamp on a route says of the drain.
use steadystate.Prelude.{
  ok, true, false, refl, ◌≤◌, ℕ, ◌+◌, ◌-◌, ◌<◌, ◌≡◌, refl, ◌↔◌, Bytes, bytes_eq_refl, lookup,
  get_or_empty, format_int, format_int-IsDigit, IsDigit, parse_int-format_int, int64_limit, All,
  false, some, List, [], ◌∷◌, ◌++◌, ◌==◌, arith, ap, ◌∙◌, ltb, if◌then◌else◌,
}
use steadystate.Status.Observe.{Route}
use steadystate.Progressive.Server.{Server}
use steadystate.Progressive.Rolling.{wait_for_route_drain, await_drain}
use steadystate.Progressive.Drain.{
  Clock, cut_comma, drain_left, stamped, route_drain_remaining, set_key, drain_stamp, with_stamp,
}

cut_comma-digits :
    (s rest : Bytes) → All IsDigit s → cut_comma (s ++ (b',' ∷ rest)) ≡ some (s, rest)
unfolding cut_comma
cut_comma-digits [] rest d = refl
cut_comma-digits (c ∷ s) rest d =
    let comma : (c == b',') ≡ false = ground (arith, d.0.0) in
    rw (comma, cut_comma-digits s rest d.1) refl

get-set_key : (k v : Bytes) (m : List (Bytes × Bytes)) → get_or_empty k (set_key k v m) ≡ v
unfolding set_key get_or_empty lookup
get-set_key k v [] = ground (arith, bytes_eq_refl k)
get-set_key k v ((j, w) ∷ m) = ground (arith, get-set_key k v m)

stamp-read :
    (clock : Clock) (route : Route) (annotation : Bytes) (delay started now : ℕ)
    → route.generation < int64_limit
    → clock.parse (clock.format started) ≡ some started
    → route_drain_remaining clock (with_stamp clock route annotation started) annotation delay now
      ≡ some (drain_left delay started now)
unfolding route_drain_remaining with_stamp drain_stamp stamped
stamp-read clock route annotation delay started now h e =
    let written = get-set_key annotation (drain_stamp clock route started) route.annotations in
    let cut =
      cut_comma-digits (format_int route.generation) (clock.format started)
        (format_int-IsDigit route.generation) in
    let generation = parse_int-format_int route.generation h in
    rw (route_drain_remaining, written, cut, stamped, generation, e) (ground arith)

-- The drain is over exactly when the delay has passed, unless the stamp lies so far ahead that a
-- Duration wraps round.
pub drain_left_iff :
    (delay started now : ℕ)
    → delay + started < now + int64_limit
    → (drain_left delay started now ≡ 0) ↔ ((delay + started ≤ now))
unfolding drain_left
drain_left_iff delay started now h = ground arith

drain_left-until :
    (delay started now : ℕ)
    → delay < int64_limit
    → drain_left delay started now
      ≡ (if ltb (delay + started) (now + int64_limit) then (delay + started) - now else 0)
unfolding drain_left
drain_left-until delay started now h = ground arith

-- The route that waitForRouteDrain stamps at one instant is tracked at any other instant, for its
-- generation, and the time that is left is what is missing to the end of the delay after the stamp, and
-- 0 behind it. A stamp so far ahead that a Duration wraps round leaves 0. The delay is a Duration, and
-- the stamp's text is read back.
pub drain_remaining-with_stamp :
    (clock : Clock) (route : Route) (annotation : Bytes) (delay started now : ℕ)
    → route.generation < int64_limit
    → delay < int64_limit
    → clock.parse (clock.format started) ≡ some started
    → route_drain_remaining clock (with_stamp clock route annotation started) annotation delay now
      ≡ some (if ltb (delay + started) (now + int64_limit) then (delay + started) - now else 0)
drain_remaining-with_stamp clock route annotation delay started now h d e =
    stamp-read clock route annotation delay started now h e
    ∙ ap (λ (k : ℕ). some k) (drain_left-until delay started now d)

drained_by : (delay started now : ℕ) → delay + started ≤ now → drain_left delay started now ≡ 0
unfolding drain_left
drained_by delay started now h = ground arith

-- A drain ends: a pass at an instant that is the delay or more behind that of the stamp, for the same
-- generation of the route, finds it drained, writes nothing and leaves the route as it is.
pub wait-drains :
    (server : Server) (clock : Clock) (route : Route) (annotation : Bytes) (delay started now : ℕ)
    → route.generation < int64_limit
    → clock.parse (clock.format started) ≡ some started
    → delay + started ≤ now
    → wait_for_route_drain server clock
        (with_stamp clock route annotation started)
        annotation
        delay
        now
      ≡ (
        [],
        ok (record {
          drained = true;
          marked = false;
          remaining = 0;
          route = with_stamp clock route annotation started;
        }),
      )
unfolding wait_for_route_drain await_drain
wait-drains server clock route annotation delay started now h e late =
    rw
      (
        wait_for_route_drain,
        stamp-read clock route annotation delay started now h e,
        drained_by delay started now late,
      )
      refl
