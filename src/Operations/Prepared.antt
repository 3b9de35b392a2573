-- ===== src/Operations/Prepared.antt =====
-- A second check of what `provision` and `resume` of services/api/operations.py let pass.
use android_farm.Prelude.{
  mem, Text, codes, text_eq, ◌≡◌, refl, sym, ◌∙◌, Bool, true, false, not, ◌||◌, List, [], ◌∷◌, ◌++◌,
  all, some, ok, >>=-ok, >>-first, >>-ok, raise_if-ok,
}
use android_farm.Prelude.Dict.{
  Dict, lookup, insert, remove, lookup-insert, lookup-remove, insert-insert, remove-remove,
  remove-insert, all-insert, all-remove,
}
use android_farm.Json.{Json}
use android_farm.Proxy.Ops
use android_farm.Operations.Request.{
  App, Settings, Host, param, is_known, check_identifier, check_fields, check_fields-ok,
  check_fields-all, is_true,
}
use android_farm.Operations.Secrets.{show_proxy}
use android_farm.Operations.Validate.{
  is_phone_value, is_available, read_egress, is_absent, egress_json, check_egress, check_provision,
}

abbrev egress : Text
egress = codes "egress"

abbrev proxy_id : Text
proxy_id = codes "proxy_id"

abbrev required : List Text
required = codes "phone" ∷ codes "owner_authorized" ∷ codes "artifact_id" ∷ []

module _ (h : Host) (c : Settings) where
  -- what the checks before the egress say
  record IsReady (params : Dict Json) (direct : Bool) : Type 0 where
    pub known : all (λ e. mem e.0 (required ++ proxy_id ∷ egress ∷ [])) params ≡ true
    pub present : all (λ k. is_known (lookup k params)) required ≡ true
    pub owned :
        (not (is_phone_value (param "phone" params))
          || not (is_true (param "owner_authorized" params)))
        ≡ false
    pub route : read_egress (lookup egress params) ≡ ok direct
    pub catalog : Dict App
    pub id : Text
    pub loaded : h.catalog ≡ ok catalog
    pub named : check_identifier (param "artifact_id" params) ≡ ok id
    pub there : not (is_available (lookup id catalog)) ≡ false
    pub trusted : not c.has_trust_file ≡ false

  ready :
      (params p : Dict Json)
      → check_provision h c params ≡ ok p
      → (direct : Bool) × IsReady params direct × (check_egress h c params direct ≡ ok p)
  unfolding check_provision
  ready params p e =
      let (x, a) = >>-first (check_fields required (proxy_id ∷ egress ∷ []) params) _ p e in
      let e1 = >>-ok (check_fields required (proxy_id ∷ egress ∷ []) params) _ p e in
      let (owned, e2) = raise_if-ok _ _ _ p e1 in
      let (direct, r, e3) = >>=-ok (read_egress (lookup egress params)) _ p e2 in
      let (catalog, l, e4) = >>=-ok h.catalog _ p e3 in
      let (id, n, e5) = >>=-ok (check_identifier (param "artifact_id" params)) _ p e4 in
      let (there, e6) = raise_if-ok _ _ _ p e5 in
      let (trusted, e7) = raise_if-ok _ _ _ p e6 in
      let (k, q) = check_fields-ok required (proxy_id ∷ egress ∷ []) params x a in
      (
        direct,
        record {
          known = k;
          present = q;
          owned = owned;
          route = r;
          catalog = catalog;
          id = id;
          loaded = l;
          named = n;
          there = there;
          trusted = trusted;
        },
        e7,
      )

  ready-check :
      (params : Dict Json) (direct : Bool)
      → IsReady params direct
      → check_provision h c params ≡ check_egress h c params direct
  unfolding check_provision
  ready-check params direct r =
      rw
        (
          check_fields-all required (proxy_id ∷ egress ∷ []) params r.known r.present,
          r.owned,
          r.route,
          r.loaded,
          r.named,
          r.there,
          r.trusted,
        )
        refl

  -- the prepared parameters pass the same checks
  again-IsReady :
      (params kept : Dict Json) (direct : Bool)
      → IsReady params direct
      → all (λ e. mem e.0 (required ++ proxy_id ∷ egress ∷ [])) kept ≡ true
      → ((k : Text) → text_eq proxy_id k ≡ false → lookup k kept ≡ lookup k params)
      → IsReady (insert egress (egress_json direct) kept) direct
  unfolding text_eq mem is_phone_value param read_egress
  again-IsReady params kept direct r known same =
      let at : (k : Text)
          → text_eq proxy_id k ≡ false
          → text_eq egress k ≡ false
          → lookup k (insert egress (egress_json direct) kept) ≡ lookup k params =
        λ k p q. lookup-insert egress k (egress_json direct) kept ∙ rw q (same k p) in
      record {
        known =
            all-insert (λ k. mem k (required ++ proxy_id ∷ egress ∷ [])) egress (egress_json direct)
              kept refl known;
        present =
            rw
              (
                at (codes "phone") refl refl,
                at (codes "owner_authorized") refl refl,
                at (codes "artifact_id") refl refl,
              )
              r.present;
        owned = rw (at (codes "phone") refl refl, at (codes "owner_authorized") refl refl) r.owned;
        route = rw (lookup-insert egress egress (egress_json direct) kept) (reads direct);
        catalog = r.catalog;
        id = r.id;
        loaded = r.loaded;
        named = rw (at (codes "artifact_id") refl refl) r.named;
        there = r.there;
        trusted = r.trusted;
      }
    where
      reads : (b : Bool) → read_egress (some (egress_json b)) ≡ ok b
      reads true = refl
      reads false = refl

  known-remove :
      (params : Dict Json)
      → all (λ e. mem e.0 (required ++ proxy_id ∷ egress ∷ [])) params ≡ true
      → all (λ e. mem e.0 (required ++ proxy_id ∷ egress ∷ [])) (remove proxy_id params) ≡ true
  known-remove params k =
      all-remove (λ k. mem k (required ++ proxy_id ∷ egress ∷ [])) proxy_id params k

  -- What `provision` and `resume` let pass is let pass again, unchanged.
  pub check_provision-again :
      (params p : Dict Json) → check_provision h c params ≡ ok p → check_provision h c p ≡ ok p
  unfolding check_egress text_eq param is_absent
  check_provision-again params p e = let (direct, r, last) = ready params p e in go direct r last
    where
      go :
          (b : Bool)
          → IsReady params b
          → check_egress h c params b ≡ ok p
          → check_provision h c p ≡ ok p
      go true r last =
          let (gone, same) = raise_if-ok (not (is_absent (lookup proxy_id params))) _ _ p last in
          let kept = remove proxy_id params in
          let whole : insert egress (egress_json true) kept ≡ p = cc same in
          let q =
            again-IsReady params kept true r (known-remove params r.known)
              (λ k d. lookup-remove proxy_id k params ∙ rw d refl) in
          rw (sym whole) (
            ready-check _ true q
            ∙ rw
                (
                  lookup-insert egress proxy_id (egress_json true) kept,
                  lookup-remove proxy_id proxy_id params,
                  remove-insert proxy_id egress (egress_json true) kept refl,
                  remove-remove proxy_id params,
                  insert-insert egress (egress_json true) (egress_json true) kept,
                )
                refl)
      go false r last =
          let (there, e1) = raise_if-ok (not (is_known (lookup proxy_id params))) _ _ p last in
          let (metadata, shown, e2) = >>=-ok (show_proxy h c (param "proxy_id" params)) _ p e1 in
          let (enabled, same) = raise_if-ok (not (Ops.is_enabled metadata.state)) _ _ p e2 in
          let whole : insert egress (egress_json false) params ≡ p = cc same in
          let q = again-IsReady params params false r r.known (λ k d. refl) in
          rw (sym whole) (
            ready-check _ false q
            ∙ rw
                (
                  lookup-insert egress proxy_id (egress_json false) params,
                  there,
                  shown,
                  enabled,
                  insert-insert egress (egress_json false) (egress_json false) params,
                )
                refl)
