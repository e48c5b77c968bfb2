-- ===== src/Naming.antt =====
-- internal/resources/common.go: the deterministic names of the generated objects.
pub mod Laws
pub mod Labels
use steadystate.Prelude.{
  ℕ, ◌+◌, ◌-◌, ◌≡◌, Bytes, bytes, Bool, List, [], ◌∷◌, ◌++◌, leb, ltb, length, take, if◌then◌else◌,
}
use Prim.Native.Nat.{◌/◌, ◌%◌}

-- crypto/sha256, whose sums have 32 bytes.
pub record Sha256 : Type 0 where
  pub sum : Bytes → Bytes
  pub length-sum : (s : Bytes) → length (sum s) ≡ 32

abbrev hex_digit : ℕ → ℕ
hex_digit d = if ltb d 10 then b'0' + d else (b'a' - 10) + d

-- `fmt.Sprintf("%x", …)` of bytes.
unfoldable pub hex : Bytes → Bytes
hex [] = []
hex (b ∷ s) = hex_digit (b / 16) ∷ hex_digit (b % 16) ∷ hex s

module _ (sha : Sha256) where
  -- The first eight digits of the digest of a text.
  unfoldable pub digest8 : Bytes → Bytes
  unfolding hex
  digest8 candidate = take 8 (hex (sha.sum candidate))

  -- suffixedNameWithLimit. The difference is not negative where the suffix leaves nine places; the
  -- program's suffixes do.
  unfoldable pub suffixed_name_with_limit : Bytes → Bytes → ℕ → Bytes
  suffixed_name_with_limit name suffix limit =
      let candidate = name ++ suffix in
      let digest = digest8 candidate in
      let prefix_length = limit - length suffix - length digest - 1 in
      if leb (length candidate) limit
      then candidate
      else take prefix_length name ++ (b'-' ∷ (digest ++ suffix))

  -- suffixedName.
  unfoldable pub suffixed_name : Bytes → Bytes → Bytes
  suffixed_name name suffix = suffixed_name_with_limit name suffix 63

  unfoldable pub config_map_name : Bytes → Bytes
  config_map_name application = suffixed_name application (bytes "-config")

  unfoldable pub stable_service_name : Bytes → Bytes
  stable_service_name application = suffixed_name application (bytes "-stable")

  unfoldable pub canary_service_name : Bytes → Bytes
  canary_service_name application = suffixed_name application (bytes "-canary")

  unfoldable pub analysis_template_name : Bytes → Bytes
  analysis_template_name application = suffixed_name application (bytes "-analysis")

  unfoldable pub service_monitor_name : Bytes → Bytes
  service_monitor_name application = suffixed_name application (bytes "-monitor")

  unfoldable pub prometheus_rule_name : Bytes → Bytes
  prometheus_rule_name application = suffixed_name application (bytes "-alerts")

  unfoldable pub otel_egress_policy_name : Bytes → Bytes
  otel_egress_policy_name application = suffixed_name application (bytes "-otel-egress")

  unfoldable pub database_egress_policy_name : Bytes → Bytes
  database_egress_policy_name application = suffixed_name application (bytes "-database-egress")

-- TeamNamespaceName.
unfoldable pub team_namespace_name : Bytes → Bytes
team_namespace_name team = bytes "team-" ++ team
