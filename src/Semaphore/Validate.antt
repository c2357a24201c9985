-- ===== src/Semaphore/Validate.antt =====
-- The checks of validate.go, options.go and common.go that come before an operation.
use Prim.Native.String.{len}
use Prim.Native.Char.{code}
use xkit.Prelude.{
  ℕ, ◌-◌, ◌/◌, ◌+◌, Bool, false, not, ◌&&◌, ◌||◌, Option, none, some, List, [], ◌∷◌, String, str_eq,
  ℤ, pos, negsuc, leb_ℤ, ltb_ℤ, leb, ltb, ◌==◌, if◌then◌else◌, Result, ok, err, ◌>>=◌, ◌>>◌,
}
use xkit.Semaphore.{
  Error, nil_context, semaphore_closed, invalid_resource, invalid_tenant_id, invalid_capacity,
  invalid_ttl, invalid_tenant_quota, invalid_max_retries, invalid_retry_delay,
}

-- The code points of a text.
abbrev pub runes : String → List ℕ
runes String.[] = []
runes (String.◌∷◌ c s) = code c ∷ runes s

unfoldable pub any_rune : (ℕ → Bool) → List ℕ → Bool
any_rune test [] = false
any_rune test (c ∷ s) = test c || any_rune test s

-- The characters `{`, `}` and `:` of `invalidResourceChars` and `invalidTenantIDChars`.
abbrev pub is_reserved : ℕ → Bool
is_reserved c = c == b'{' || c == b'}' || c == b':'

-- `unicode.IsSpace`
abbrev pub is_space : ℕ → Bool
is_space c =
    (leb 0x09 c && leb c 0x0d)
    || c == 0x20
    || c == 0x85
    || c == 0xa0
    || c == 0x1680
    || (leb 0x2000 c && leb c 0x200a)
    || c == 0x2028
    || c == 0x2029
    || c == 0x202f
    || c == 0x205f
    || c == 0x3000

abbrev pub max_name_length : ℕ
max_name_length = 256

unfoldable pub validate_resource : String → Result Error Unit
unfolding any_rune
validate_resource resource =
    if str_eq resource ""
    then err invalid_resource
    else if ltb max_name_length (len resource)
    then err invalid_resource
    else if any_rune is_reserved (runes resource)
    then err invalid_resource
    else if any_rune is_space (runes resource)
    then err invalid_resource
    else ok tt

unfoldable pub validate_tenant_id : String → Result Error Unit
unfolding any_rune
validate_tenant_id tenant_id =
    if str_eq tenant_id ""
    then ok tt
    else if ltb max_name_length (len tenant_id)
    then err invalid_tenant_id
    else if any_rune is_reserved (runes tenant_id)
    then err invalid_tenant_id
    else if any_rune is_space (runes tenant_id)
    then err invalid_tenant_id
    else ok tt

-- The fields of `acquireOptions` without the metadata.
pub record AcquireOptions : Type 0 where
  pub capacity : ℤ
  pub tenant_id : String
  pub tenant_quota : ℤ
  pub ttl : ℤ
  pub max_retries : ℤ
  pub retry_delay : ℤ

unfoldable pub validate_acquire : AcquireOptions → Result Error Unit
validate_acquire o =
    if leb_ℤ o.capacity (pos 0)
    then err invalid_capacity
    else if leb_ℤ o.ttl (pos 0)
    then err invalid_ttl
    else if ltb_ℤ o.tenant_quota (pos 0)
    then err invalid_tenant_quota
    else if ltb_ℤ (pos 0) o.tenant_quota && ltb_ℤ o.capacity o.tenant_quota
    then err invalid_tenant_quota
    else ok tt

abbrev pub max_max_retries : ℤ
max_max_retries = pos 10000

unfoldable pub validate_retry_params : AcquireOptions → Result Error Unit
validate_retry_params o =
    if leb_ℤ o.max_retries (pos 0)
    then err invalid_max_retries
    else if ltb_ℤ max_max_retries o.max_retries
    then err invalid_max_retries
    else if leb_ℤ o.retry_delay (pos 0)
    then err invalid_retry_delay
    else ok tt

pub record QueryOptions : Type 0 where
  pub capacity : ℤ
  pub tenant_id : String
  pub tenant_quota : ℤ

unfoldable pub validate_query : QueryOptions → Result Error Unit
validate_query o =
    if leb_ℤ o.capacity (pos 0)
    then err invalid_capacity
    else if ltb_ℤ o.tenant_quota (pos 0)
    then err invalid_tenant_quota
    else if ltb_ℤ (pos 0) o.tenant_quota && ltb_ℤ o.capacity o.tenant_quota
    then err invalid_tenant_quota
    else ok tt

-- A context, as far as it is read here: nil, or the tenant that it carries.
abbrev pub Ctx : Type 0
Ctx = Option String

unfoldable pub resolve_tenant_id : String → String → String
resolve_tenant_id in_context explicit = if not (str_eq explicit "") then explicit else in_context

-- `validateCommonParams`; the result is the tenant of the context.
unfoldable pub validate_common_params : Ctx → String → Bool → Result Error String
unfolding validate_resource
validate_common_params none resource closed = err nil_context
validate_common_params (some tenant) resource closed =
    if closed then err semaphore_closed else validate_resource resource >>= λ _. ok tenant

unfoldable pub prepare_acquire_common : Ctx → String → AcquireOptions → Bool → Result Error String
unfolding validate_common_params validate_acquire resolve_tenant_id validate_tenant_id
prepare_acquire_common ctx resource o closed = do
  in_context ← validate_common_params ctx resource closed
  validate_acquire o
  let tenant_id = resolve_tenant_id in_context o.tenant_id
  validate_tenant_id tenant_id
  ok tenant_id

unfoldable pub prepare_query_common : Ctx → String → QueryOptions → Bool → Result Error String
unfolding validate_common_params validate_query resolve_tenant_id validate_tenant_id
prepare_query_common ctx resource o closed = do
  in_context ← validate_common_params ctx resource closed
  validate_query o
  let tenant_id = resolve_tenant_id in_context o.tenant_id
  validate_tenant_id tenant_id
  ok tenant_id

-- Go's `/`, which truncates towards 0. The divisor is not 0 where it is used.
abbrev pub quotient : ℤ → ℤ → ℤ
quotient (pos a) (pos b) = pos (a / b)
quotient (pos a) (negsuc b) = if a / (b + 1) == 0 then pos 0 else negsuc (a / (b + 1) - 1)
quotient (negsuc a) (pos b) = if (a + 1) / b == 0 then pos 0 else negsuc ((a + 1) / b - 1)
quotient (negsuc a) (negsuc b) = pos ((a + 1) / (b + 1))

abbrev pub max_ℤ : ℤ → ℤ → ℤ
max_ℤ a b = if leb_ℤ a b then b else a

abbrev pub default_pod_count : ℤ
default_pod_count = pos 1

unfoldable pub effective_pod_count : ℤ → ℤ
effective_pod_count pod_count = if leb_ℤ pod_count (pos 0) then default_pod_count else pod_count

unfoldable pub divide_by_pod_count : ℤ → ℤ → ℤ
divide_by_pod_count value pod_count =
    if leb_ℤ value (pos 0) then pos 0 else max_ℤ (pos 1) (quotient value pod_count)
