-- ===== src/Boundary/Laws/Watches.antt =====
-- The requests for Teams.
use steadystate.Prelude.{
  Bytes, bytes, has_prefix, Bool-cases, inl, inr, true, false, ◌≡◌, ◌≢◌, ◌↔◌, refl, sym, ◌∙◌, ap,
  [], ◌∷◌, ◌++◌, length, drop, arith,
}
use steadystate.Naming.{team_namespace_name}
use steadystate.Boundary.Watches.{request_of, team_request_for_platform_object}

has_prefix-drop : (s p : Bytes) → has_prefix s p ≡ true → p ++ drop (length p) s ≡ s
unfolding has_prefix
has_prefix-drop s [] h = refl
has_prefix-drop [] (p ∷ ps) h = ground arith
has_prefix-drop (c ∷ s) (p ∷ ps) h = ground (arith, has_prefix-drop s ps)

has_prefix-append : (p s : Bytes) → has_prefix (p ++ s) p ≡ true
unfolding has_prefix
has_prefix-append [] s = ground arith
has_prefix-append (p ∷ ps) s = ground (arith, has_prefix-append ps s)

drop-append : (p s : Bytes) → drop (length p) (p ++ s) ≡ s
drop-append [] s = refl
drop-append (p ∷ ps) s = drop-append ps s

request_of_iff : (s t : Bytes) → (request_of s ≡ t ∷ []) ↔ ((s ≡ t) × (t ≢ []))
unfolding request_of
request_of_iff [] t = ground arith
request_of_iff (c ∷ s) t = ground arith

at_prefix :
    (namespace : Bytes)
    → has_prefix namespace (bytes "team-") ≡ true
    → team_request_for_platform_object namespace
      ≡ request_of (drop (length (bytes "team-")) namespace)
unfolding team_request_for_platform_object
at_prefix namespace e = rw (team_request_for_platform_object, e) refl

at_other :
    (namespace : Bytes)
    → has_prefix namespace (bytes "team-") ≡ false
    → team_request_for_platform_object namespace ≡ []
unfolding team_request_for_platform_object
at_other namespace e = rw (team_request_for_platform_object, e) refl

asked :
    (namespace team : Bytes)
    → team_request_for_platform_object namespace ≡ team ∷ []
    → (namespace ≡ bytes "team-" ++ team) × (team ≢ [])
asked namespace team h = elim (Bool-cases (has_prefix namespace (bytes "team-"))) [
  | inl e ↦
      let rest = drop (length (bytes "team-")) namespace in
      let found = (request_of_iff rest team).0 (sym (at_prefix namespace e) ∙ h) in
      (
        sym (has_prefix-drop namespace (bytes "team-") e) ∙ ap (◌++◌ (bytes "team-")) found.0,
        found.1,
      )
  | inr e ↦ let never = sym (at_other namespace e) ∙ h in ground arith
]

asks :
    (namespace team : Bytes)
    → (namespace ≡ bytes "team-" ++ team) × (team ≢ [])
    → team_request_for_platform_object namespace ≡ team ∷ []
asks namespace team h =
    ap team_request_for_platform_object h.0
    ∙ (at_prefix (bytes "team-" ++ team) (has_prefix-append (bytes "team-") team)
        ∙ (ap request_of (drop-append (bytes "team-") team)
            ∙ (request_of_iff team team).1 (refl, h.1)))

-- A change in a namespace asks for a Team exactly when the namespace has the name that is generated
-- for that Team, whose name is not empty.
pub platform_request_iff :
    (namespace team : Bytes)
    → (team_request_for_platform_object namespace ≡ team ∷ [])
      ↔ ((namespace ≡ team_namespace_name team) × (team ≢ []))
unfolding team_namespace_name
platform_request_iff namespace team = (asked namespace team, asks namespace team)
