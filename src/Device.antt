-- ===== src/Device.antt =====
-- ops/device_ids.py: device identifiers and the addresses and ports that follow from them.
pub mod Format
pub mod Network
use android_farm.Prelude.{
  ℕ, zero, suc, ◌+◌, ◌-◌, ◌*◌, ◌/◌, ◌%◌, ◌^◌, not, Text, codes, Bool, true, false, ◌&&◌, ◌||◌, List,
  [], ◌∷◌, ◌++◌, Option, none, some, ◌==◌, ltb, leb, if◌then◌else◌, length, all, Result, ok, err,
  value_error, type_error, ◌>>=◌, ◌>>◌, raise_if,
}
use android_farm.Prelude.Int.{ℤ, pos, negsuc}
use android_farm.Prelude.Decimal.{Unicode, decimal, pad_left, is_digit, read_from}
use android_farm.Json.{Json, null, bool, int, float, str, arr, obj, Items, Fields, nil, end}

-- `EGRESS_POOL` and `CONTROL_POOL`, networks of 2 ^ 16 addresses, by their first address
abbrev pub egress_pool : ℕ
egress_pool = 10 * 2 ^ 24 + 231 * 2 ^ 16

abbrev pub control_pool : ℕ
control_pool = 10 * 2 ^ 24 + 232 * 2 ^ 16

abbrev pub pool_size : ℕ
pool_size = 2 ^ 16

abbrev pub device_prefix : ℕ
device_prefix = 29

-- `1 << (32 - DEVICE_PREFIX)`
abbrev pub subnet_size : ℕ
subnet_size = 8

abbrev pub adb_port_base : ℕ
adb_port_base = 5550

abbrev pub max_tcp_port : ℕ
max_tcp_port = 65535

-- `min(65536 // 8, 65536 // 8, 65535 - 5550)`
abbrev pub device_limit : ℕ
device_limit = 8192

-- `f'num{index:02d}'`
unfoldable pub device_name : ℕ → Text
device_name i = codes "num" ++ pad_left 2 (decimal i)

unfoldable pub device_id : Json → Result Text
device_id (int (pos i)) =
    if leb 1 i && leb i device_limit
    then ok (device_name i)
    else err (value_error "device index must be between 1 and ")
device_id _ = err (value_error "device index must be between 1 and ")

-- `value or ''`, at which `re.fullmatch` wants a text
unfoldable pub text_or_empty : Json → Result Text
text_or_empty null = ok []
text_or_empty (bool false) = ok []
text_or_empty (bool true) = err (type_error "expected string or bytes-like object")
text_or_empty (int (pos zero)) = ok []
text_or_empty (int (pos (suc n))) = err (type_error "expected string or bytes-like object")
text_or_empty (int (negsuc n)) = err (type_error "expected string or bytes-like object")
text_or_empty (float (some (pos zero))) = ok []
text_or_empty (float _) = err (type_error "expected string or bytes-like object")
text_or_empty (str s) = ok s
text_or_empty (arr nil) = ok []
text_or_empty (arr _) = err (type_error "expected string or bytes-like object")
text_or_empty (obj end) = ok []
text_or_empty (obj _) = err (type_error "expected string or bytes-like object")

-- a text behind `num`, or behind `dev` where aliases are allowed
unfoldable pub after_prefix : Bool → Text → Option Text
after_prefix aliases (a ∷ b ∷ c ∷ s) =
    if a == b'n' && b == b'u' && c == b'm' || aliases && a == b'd' && b == b'e' && c == b'v'
    then some s
    else none
after_prefix aliases _ = none

-- the largest text that `int` reads (`sys.get_int_max_str_digits()`)
abbrev pub max_int_digits : ℕ
max_int_digits = 4300

module _ (u : Unicode) where
  -- `0*[1-9]\d*`, of the whole text
  unfoldable pub is_number : Text → Bool
  is_number [] = false
  is_number (c ∷ s) =
      if c == b'0' then is_number s else leb b'1' c && leb c b'9' && all (is_digit u) s

  -- `int(match.group(1))`, and the test of its value
  unfoldable pub index_of_digits : Text → Result ℕ
  index_of_digits s = do
    raise_if (ltb max_int_digits (length s)) (value_error "Exceeds the limit (4300 digits)")
    let index = read_from u 0 s
    raise_if (ltb device_limit index)
        (value_error "device exceeds the address/port allocator ceiling")
    ok index

  unfoldable pub index_of_text : Bool → Text → Result ℕ
  unfolding index_of_digits
  index_of_text aliases t = elim (after_prefix aliases t) [
    | none ↦ err (value_error "device must use numNN (or devNN where aliases are accepted)")
    | some s ↦
        if is_number s
        then index_of_digits s
        else err (value_error "device must use numNN (or devNN where aliases are accepted)")
  ]

  unfoldable pub device_index : Bool → Json → Result ℕ
  unfolding index_of_text
  device_index aliases value = do t ← text_or_empty value; index_of_text aliases t

  unfoldable pub canonical_device : Json → Result Text
  canonical_device value = do index ← device_index true value; device_id (int (pos index))

-- `IPv4Network((address, prefix))`
pub record Ipv4Network : Type 0 where
  pub network_address : ℕ
  pub prefix : ℕ

-- `str(IPv4Address(n))`
unfoldable pub ipv4_text : ℕ → Text
ipv4_text n =
    decimal (n / 2 ^ 24)
    ++ b'.'
      ∷ (decimal (n / 2 ^ 16 % 256)
          ++ b'.' ∷ (decimal (n / 2 ^ 8 % 256) ++ b'.' ∷ decimal (n % 256)))

unfoldable pub network_text : Ipv4Network → Text
network_text n = ipv4_text n.network_address ++ b'/' ∷ decimal n.prefix

-- The constructor refuses an address with host bits, and one above 32 bits.
unfoldable pub ipv4_network : ℕ → Result Ipv4Network
ipv4_network address = do
  raise_if (leb (2 ^ 32) address) (value_error "is not permitted (>= 2**32)")
  raise_if (not (address % subnet_size == 0)) (value_error "has host bits set")
  ok (record { network_address = address; prefix = device_prefix })

pub record NetworkPlan : Type 0 where
  pub egress_subnet : Text
  pub control_subnet : Text
  pub proxy_egress_ip : Text
  pub proxy_control_ip : Text
  pub screen_control_ip : Text
  pub adb_port : ℕ
  pub bridge : Text
  pub iptables_chain : Text

-- the plan of an index whose two subnets are known
unfoldable pub plan_of : ℕ → Ipv4Network → Ipv4Network → NetworkPlan
plan_of i egress control = record {
  egress_subnet = network_text egress;
  control_subnet = network_text control;
  proxy_egress_ip = ipv4_text (egress.network_address + 2);
  proxy_control_ip = ipv4_text (control.network_address + 2);
  screen_control_ip = ipv4_text (control.network_address + 3);
  adb_port = adb_port_base + i;
  bridge = codes "br-af" ++ pad_left 5 (decimal i);
  iptables_chain = codes "AF" ++ pad_left 5 (decimal i);
}

module _ (u : Unicode) where
  -- `_subnet`: the index is validated by a round trip through its identifier.
  unfoldable pub subnet : ℕ → ℕ → Result Ipv4Network
  unfolding ipv4_network
  subnet pool i = do
    name ← device_id (int (pos i))
    _ ← device_index u false (str name)
    ipv4_network (pool + (i - 1) * subnet_size)

  unfoldable pub network_plan : ℕ → Result NetworkPlan
  unfolding plan_of
  network_plan i = do
    egress ← subnet egress_pool i
    control ← subnet control_pool i
    ok (plan_of i egress control)
