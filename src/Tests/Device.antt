-- ===== src/Tests/Device.antt =====
-- The theorems on devices (ops/device_ids.py) at concrete inputs.
use android_farm.Prelude.{
  ℕ, ◌-◌, ◌≤◌, ◌<◌, ◌+◌, ◌*◌, ◌≡◌, refl, codes, true, false, inr, arith, ok, length,
}
use android_farm.Prelude.Decimal.{decimal, pad_left, is_digit, read_from, digits}
use android_farm.Json.{str}
use android_farm.Device.{
  device_limit, device_name, device_id, text_or_empty, after_prefix, is_number, index_of_digits,
  index_of_text, device_index, canonical_device, egress_pool, control_pool, adb_port_base,
  max_tcp_port, NetworkPlan, subnet, network_plan, plan_of, ipv4_network,
}
use android_farm.Device.Format.{device_index-device_name, canonical_device-IsCanonical}
use android_farm.Device.Network.{network_plan_domain, subnet-disjoint, network_plan-resources}
use android_farm.Tests.Ascii.{ascii}

device_index-device_name_example : device_index ascii true (str (device_name 7)) ≡ ok 7
device_index-device_name_example = device_index-device_name ascii true 7 (omega arith) (omega arith)

num12 : device_name 12 ≡ codes "num12"
unfolding device_name decimal digits pad_left
num12 = refl

reads_dev7 : canonical_device ascii (str (codes "dev007")) ≡ ok (codes "num07")
unfolding canonical_device device_index index_of_text index_of_digits text_or_empty after_prefix
    is_number device_id device_name decimal digits pad_left is_digit read_from
reads_dev7 = refl

canonical_device-IsCanonical_example :
    (canonical_device ascii (str (codes "num07")) ≡ ok (codes "num07"))
    × (device_index ascii false (str (codes "num07"))
        ≡ device_index ascii true (str (codes "dev007")))
canonical_device-IsCanonical_example =
    canonical_device-IsCanonical ascii (str (codes "dev007")) (codes "num07") reads_dev7

second_subnet :
    subnet ascii control_pool 2 ≡ ok (record { network_address = control_pool + 8; prefix = 29 })
unfolding subnet ipv4_network device_index index_of_text index_of_digits text_or_empty after_prefix
    is_number device_id device_name decimal digits pad_left is_digit read_from
second_subnet = refl

subnet-disjoint_example : (control_pool ≡ control_pool) × (◌≡◌ {A = ℕ} 2 2)
subnet-disjoint_example =
    subnet-disjoint ascii control_pool control_pool 2 2 (control_pool + 11)
      (record { network_address = control_pool + 8; prefix = 29 })
      (record { network_address = control_pool + 8; prefix = 29 }) (inr refl) (inr refl)
      second_subnet second_subnet (omega arith, omega arith) (omega arith, omega arith)

network_plan_domain_example :
    (((1 ≤ 9) × (9 ≤ device_limit)) → (p : NetworkPlan) × (network_plan ascii 9 ≡ ok p))
    × ((p : NetworkPlan) → network_plan ascii 9 ≡ ok p → (1 ≤ 9) × (9 ≤ device_limit))
network_plan_domain_example = network_plan_domain ascii 9

abbrev plan : ℕ → NetworkPlan
plan i =
    plan_of i (record { network_address = egress_pool + (i - 1) * 8; prefix = 29 })
      (record { network_address = control_pool + (i - 1) * 8; prefix = 29 })

planned : (network_plan ascii 1 ≡ ok (plan 1)) × (network_plan ascii 8192 ≡ ok (plan 8192))
unfolding network_plan subnet ipv4_network device_index index_of_text index_of_digits text_or_empty
    after_prefix is_number device_id device_name decimal digits pad_left is_digit read_from
planned = (refl, refl)

network_plan-resources_example :
    (adb_port_base < (plan 1).adb_port)
    × ((plan 1).adb_port ≤ max_tcp_port)
    × ((plan 1).adb_port ≡ (plan 8192).adb_port → ◌≡◌ {A = ℕ} 1 8192)
    × (length (plan 1).bridge ≤ 15)
    × (length (plan 1).iptables_chain ≤ 28)
network_plan-resources_example =
    network_plan-resources ascii 1 8192 (plan 1) (plan 8192) planned.0 planned.1

bridge_of_1 : (plan 1).bridge ≡ codes "br-af00001"
unfolding plan_of decimal digits pad_left
bridge_of_1 = refl
