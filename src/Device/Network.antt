-- ===== src/Device/Network.antt =====
-- The subnets, addresses and ports of the devices (ops/device_ids.py).
use android_farm.Prelude.{
  ℕ, ◌+◌, ◌-◌, ◌*◌, ◌%◌, ◌^◌, ◌≤◌, ◌<◌, codes, false, ◌++◌, ◌≡◌, refl, ◌⊎◌, arith, length, ok,
}
use android_farm.Prelude.Decimal.{Unicode, decimal, pad_left}
use android_farm.Device.{
  egress_pool, control_pool, pool_size, subnet_size, device_prefix, adb_port_base, max_tcp_port,
  device_limit, device_id, Ipv4Network, subnet, NetworkPlan, plan_of, network_plan,
}
use android_farm.Device.Format.{
  device_index-device_name, device_id_of_index, length-pad_left, length-decimal,
}

-- an address that belongs to a network
abbrev pub Contains : Ipv4Network → ℕ → Type 0
Contains n a = (n.network_address ≤ a) × (a < n.network_address + 2 ^ (32 - n.prefix))

-- `p` is one of the two pools
abbrev pub IsPool : ℕ → Type 0
IsPool p = (p ≡ egress_pool) ⊎ (p ≡ control_pool)

module _ (u : Unicode) where
  subnet_of_index :
      (pool i : ℕ)
      → pool % 8 ≡ 0
      → pool + pool_size ≤ 2 ^ 32
      → 1 ≤ i
      → i ≤ device_limit
      → subnet u pool i
        ≡ ok (record { network_address = pool + (i - 1) * subnet_size; prefix = device_prefix })
  unfolding subnet
  subnet_of_index pool i m r l h =
      rw (device_id_of_index u i l h) (rw (device_index-device_name u false i l h) (ground arith))

  -- Every index in range has a plan, and no other index has one.
  pub network_plan_domain :
      (i : ℕ)
      → (((1 ≤ i) × (i ≤ device_limit)) → (p : NetworkPlan) × (network_plan u i ≡ ok p))
        × ((p : NetworkPlan) → network_plan u i ≡ ok p → (1 ≤ i) × (i ≤ device_limit))
  unfolding network_plan
  network_plan_domain i = (total, domain)
    where
      total : ((1 ≤ i) × (i ≤ device_limit)) → (p : NetworkPlan) × (network_plan u i ≡ ok p)
      total b = (
        plan_of i
            (record {
              network_address = egress_pool + (i - 1) * subnet_size;
              prefix = device_prefix;
            })
            (record {
              network_address = control_pool + (i - 1) * subnet_size;
              prefix = device_prefix;
            }),
        rw (subnet_of_index egress_pool i refl (omega arith) b.0 b.1)
            (rw (subnet_of_index control_pool i refl (omega arith) b.0 b.1) refl),
      )

      domain : (p : NetworkPlan) → network_plan u i ≡ ok p → (1 ≤ i) × (i ≤ device_limit)
      domain p e = unfold subnet device_id in ground arith

  subnet_domain :
      (pool i : ℕ) (n : Ipv4Network) → subnet u pool i ≡ ok n → (1 ≤ i) × (i ≤ device_limit)
  unfolding subnet device_id
  subnet_domain pool i n e = ground arith

  pool_aligned : (p : ℕ) → IsPool p → (p % 8 ≡ 0) × (p + pool_size ≤ 2 ^ 32)
  pool_aligned p h = ground arith

  subnet_inv :
      (p i : ℕ) (n : Ipv4Network)
      → IsPool p
      → subnet u p i ≡ ok n
      → (1 ≤ i)
        × (i ≤ device_limit)
        × (n.network_address ≡ p + (i - 1) * subnet_size)
        × (n.prefix ≡ device_prefix)
  subnet_inv p i n h e =
      let b : (1 ≤ i) × (i ≤ device_limit) = subnet_domain p i n e in
      let a : (p % 8 ≡ 0) × (p + pool_size ≤ 2 ^ 32) = pool_aligned p h in
      ground (arith, subnet_of_index p i a.0 a.1 b.0 b.1)

  -- An address lies in at most one of the subnets that are handed out, over both pools: two
  -- subnets that share an address belong to one pool and to one device.
  pub subnet-disjoint :
      (p q i j address : ℕ) (n m : Ipv4Network)
      → IsPool p
      → IsPool q
      → subnet u p i ≡ ok n
      → subnet u q j ≡ ok m
      → Contains n address
      → Contains m address
      → (p ≡ q) × (i ≡ j)
  subnet-disjoint p q i j address n m hp hq e f c d =
      let x = subnet_inv p i n hp e in
      let y = subnet_inv q j m hq f in
      meet p q i j address n.network_address m.network_address hp hq (x.0, x.1, x.2) (y.0, y.1, y.2)
        (c.0, rw x.3 at c.1) (d.0, rw y.3 at d.1)
    where
      meet :
          (p q i j a b c : ℕ)
          → IsPool p
          → IsPool q
          → (1 ≤ i) × (i ≤ device_limit) × (b ≡ p + (i - 1) * 8)
          → (1 ≤ j) × (j ≤ device_limit) × (c ≡ q + (j - 1) * 8)
          → (b ≤ a) × (a < b + 8)
          → (c ≤ a) × (a < c + 8)
          → (p ≡ q) × (i ≡ j)
      meet p q i j a b c hp hq x y s t = ground arith

  network_plan_inv :
      (i : ℕ) (p : NetworkPlan)
      → network_plan u i ≡ ok p
      → (1 ≤ i)
        × (i ≤ device_limit)
        × (p.adb_port ≡ adb_port_base + i)
        × (p.bridge ≡ codes "br-af" ++ pad_left 5 (decimal i))
        × (p.iptables_chain ≡ codes "AF" ++ pad_left 5 (decimal i))
  network_plan_inv i p e =
      let b : (1 ≤ i) × (i ≤ device_limit) = (network_plan_domain i).1 p e in
      unfold network_plan plan_of in
      ground (
        arith,
        subnet_of_index egress_pool i refl (omega arith) b.0 b.1,
        subnet_of_index control_pool i refl (omega arith) b.0 b.1,
      )

  -- The ADB port of a plan is a TCP port above the base, two devices never share one, and the
  -- bridge and chain names fit the kernel's limits of 15 and 28 characters.
  pub network_plan-resources :
      (i j : ℕ) (p q : NetworkPlan)
      → network_plan u i ≡ ok p
      → network_plan u j ≡ ok q
      → (adb_port_base < p.adb_port)
        × (p.adb_port ≤ max_tcp_port)
        × (p.adb_port ≡ q.adb_port → i ≡ j)
        × (length p.bridge ≤ 15)
        × (length p.iptables_chain ≤ 28)
  network_plan-resources i j p q e f =
      let x = network_plan_inv i p e in
      let y = network_plan_inv j q f in
      let d = length-decimal i (omega arith) in
      let l = length-pad_left 5 (decimal i) in
      (omega arith, omega arith, λ h. omega arith, rw x.3 (omega arith), rw x.4 (omega arith))
