-- ===== src/Platform/Catalog/Patterns.antt =====
-- The patterns of names and versions: dnsLabelPattern, semverPattern, gitObjectPattern and validName.
use steadystate.Prelude.{
  ℕ, zero, suc, ◌==◌, Bytes, length, leb, Bool, false, ◌&&◌, ◌||◌, [], ◌∷◌, if◌then◌else◌, ltb,
}

-- `[a-z0-9]`.
abbrev pub is_label_byte : ℕ → Bool
is_label_byte c = (leb b'a' c && leb c b'z') || (leb b'0' c && leb c b'9')

-- `[-a-z0-9]*[a-z0-9]$`.
unfoldable pub label_rest : Bytes → Bool
label_rest [] = false
label_rest (c ∷ []) = is_label_byte c
label_rest (c ∷ d ∷ s) = (c == b'-' || is_label_byte c) && label_rest (d ∷ s)

-- dnsLabelPattern, `^[a-z0-9]([-a-z0-9]*[a-z0-9])?$`.
unfoldable pub is_dns_label : Bytes → Bool
unfolding label_rest
is_dns_label [] = false
is_dns_label (c ∷ []) = is_label_byte c
is_dns_label (c ∷ d ∷ s) = is_label_byte c && label_rest (d ∷ s)

-- validName.
unfoldable pub valid_name : Bytes → ℕ → Bool
valid_name name max = ltb 0 (length name) && leb (length name) max && is_dns_label name

-- Where a reader of `v(0|[1-9][0-9]*)\.(0|[1-9][0-9]*)\.(0|[1-9][0-9]*)` is: at the start of a number,
-- behind the number 0, or inside another number.
pub data VersionState : Type 0 where
  number_start after_zero in_number : VersionState

-- The rest of a version of which `dots` dots are to come.
unfoldable pub version_rest : VersionState → ℕ → Bytes → Bool
version_rest number_start dots [] = false
version_rest after_zero dots [] = dots == 0
version_rest in_number dots [] = dots == 0
version_rest number_start dots (c ∷ s) =
    let zero_rest = version_rest after_zero dots s in
    let number_rest = version_rest in_number dots s in
    if c == b'0' then zero_rest else if leb b'1' c && leb c b'9' then number_rest else false
version_rest after_zero zero (c ∷ s) = false
version_rest after_zero (suc dots) (c ∷ s) = c == b'.' && version_rest number_start dots s
version_rest in_number zero (c ∷ s) = leb b'0' c && leb c b'9' && version_rest in_number zero s
version_rest in_number (suc dots) (c ∷ s) =
    let next = version_rest number_start dots s in
    let more = version_rest in_number (suc dots) s in
    if c == b'.' then next else if leb b'0' c && leb c b'9' then more else false

-- semverPattern.
unfoldable pub is_version : Bytes → Bool
unfolding version_rest
is_version [] = false
is_version (c ∷ s) = c == b'v' && version_rest number_start 2 s
