-- ===== src/Server/Guards.antt =====
-- What a request must have passed before services/api/server.py changes the table of jobs.
use android_farm.Prelude.{
  ℕ, Text, codes, leb, length, [], ◌∷◌, text_eq, text_eq_iff, ◌≡◌, ◌≢◌, refl, Bool, true, false,
  not, ◌||◌, List, mem, Option, none, some, if◌then◌else◌, arith, String,
}
use android_farm.Prelude.Dict.{Dict}
use android_farm.Json.{Json}
use android_farm.Jobs
use android_farm.Operations.Request.{Host}
use android_farm.Server.{Site, Call, Answer, sent, refuse}
use android_farm.Server.Handler.{
  respond, respond_to, route, post, is_post, is_forged, is_allowed, is_get,
}

refuse-passed :
    (t : Bool) (status : ℕ) (code : String) (jobs : List Jobs.Job) (rest : Answer)
    → (refuse t status code jobs rest).1 ≢ jobs
    → (t ≡ false) × (rest.1 ≢ jobs)
unfolding refuse
refuse-passed true status code jobs rest h = absurd (h refl)
refuse-passed false status code jobs rest h = (refl, h)

module _ (h : Host) (site : Site) (dumps : Dict Json → Text) (digest : Text → Text)
    (max_pending : ℕ) where
  -- the request is authenticated, posted from an origin of the site with its token, and not across
  -- sites, and the queue works
  pub record IsGuarded (q : Call) : Type 0 where
    pub user : Text
    pub authenticated : q.user ≡ some user
    pub no_query : q.query ≡ []
    pub posted : is_post h site dumps digest max_pending q ≡ true
    pub healthy : site.healthy ≡ true
    pub origin : Text
    pub sent_origin : q.origin ≡ some origin
    pub allowed : mem origin site.origins ≡ true
    pub same_site : text_eq q.fetch_site (codes "cross-site") ≡ false
    pub token : q.csrf ≡ site.csrf

  not-forged :
      (q : Call)
      → is_forged h site dumps digest max_pending q ≡ false
      → (origin : Text) × (q.origin ≡ some origin)
        × (mem origin site.origins ≡ true)
        × (text_eq q.fetch_site (codes "cross-site") ≡ false)
        × (q.csrf ≡ site.csrf)
  unfolding is_forged is_allowed
  not-forged q f = go q.origin refl f
    where
      go :
          (o : Option Text)
          → q.origin ≡ o
          → (not (is_allowed h site dumps digest max_pending o)
              || text_eq q.fetch_site (codes "cross-site")
              || not (text_eq q.csrf site.csrf))
            ≡ false
          → (origin : Text) × (q.origin ≡ some origin)
            × (mem origin site.origins ≡ true)
            × (text_eq q.fetch_site (codes "cross-site") ≡ false)
            × (q.csrf ≡ site.csrf)
      go none e f = cc f
      go (some origin) e f = (
        origin,
        e,
        ground (arith, f),
        ground (arith, f),
        ground (arith, f, text_eq_iff q.csrf site.csrf),
      )

  empty : (s : Text) → not (leb (length s) 0) ≡ false → s ≡ []
  empty [] e = refl
  empty (c ∷ s) e = ground (arith, e)

  post-passed :
      (q : Call) (user : Text) (jobs : List Jobs.Job)
      → (post h site dumps digest max_pending q user jobs).1 ≢ jobs
      → (is_post h site dumps digest max_pending q ≡ true)
        × (site.healthy ≡ true)
        × (is_forged h site dumps digest max_pending q ≡ false)
  unfolding post
  post-passed q user jobs d =
      let (p, d1) = refuse-passed _ _ _ jobs _ d in
      let (s, d2) = refuse-passed _ _ _ jobs _ d1 in
      let (f, d3) = refuse-passed _ _ _ jobs _ d2 in (ground (arith, p), ground (arith, s), f)

  -- The table of jobs changes only by a request that is authenticated, that was posted to one of the
  -- three routes without a query, from an allowed origin, not across sites, and with the token of
  -- this application, while the executor lives; any other request leaves the table as it is.
  pub respond-IsGuarded :
      (q : Call) (jobs : List Jobs.Job)
      → (respond h site dumps digest max_pending q jobs).1 ≢ jobs
      → IsGuarded q
  unfolding respond respond_to route
  respond-IsGuarded q jobs d = go q.user refl d
    where
      decided :
          (user : Text) (a b : Bool)
          → (if a
              then (sent (if site.healthy then 200 else 503), jobs)
              else if b
              then (sent 200, jobs)
              else post h site dumps digest max_pending q user jobs).1
            ≢ jobs
          → (post h site dumps digest max_pending q user jobs).1 ≢ jobs
      decided user true b d = absurd (d refl)
      decided user false true d = absurd (d refl)
      decided user false false d = d

      go :
          (o : Option Text)
          → q.user ≡ o
          → (respond_to h site dumps digest max_pending o q jobs).1 ≢ jobs
          → IsGuarded q
      go none e d = absurd (d refl)
      go (some user) e d =
          let (plain, d1) = refuse-passed _ _ _ jobs _ d in
          let (p, s, f) = post-passed q user jobs (
            decided user (is_get h site dumps digest max_pending q "/api/v1/health")
              (is_get h site dumps digest max_pending q "/api/v1/snapshot") d1) in
          let (origin, o, allowed, same, token) = not-forged q f in
          record {
            user = user;
            authenticated = e;
            no_query = empty q.query plain;
            posted = p;
            healthy = s;
            origin = origin;
            sent_origin = o;
            allowed = allowed;
            same_site = same;
            token = token;
          }
