-- ===== src/Scheduler/Routing.antt =====
-- The registration of the routes (pkg/scheduler/routes.go, cmd/scheduler/main.go). The router is
-- httprouter's: its operations, and what its documentation says of them for paths without wildcards,
-- are parameters.
use kubernetes_local_volume.Base.{
  String, ◌<>◌, str_eq, contains, Bool, true, not, ◌&&◌, ◌≡◌, refl, sym, ◌∙◌, Option, none, some,
  List, [], ◌∷◌, if◌then◌else◌,
}
use kubernetes_local_volume.Fault.{Outcome, ok, panic, ok-injective}
use kubernetes_local_volume.Fault.Pure.{◌>>=◌}
use kubernetes_local_volume.Types.{version}
use kubernetes_local_volume.Scheduler.Routes.{Request, Write, write_body}

abbrev pub version_path : String
version_path = "/version"

abbrev pub api_prefix : String
api_prefix = "/scheduler"

abbrev pub bind_path : String
bind_path = api_prefix <> "/bind"

abbrev pub predicates_path : String
predicates_path = api_prefix <> "/predicates"

abbrev pub priorities_path : String
priorities_path = api_prefix <> "/priorities"

abbrev pub preemption_path : String
preemption_path = api_prefix <> "/preemption"

-- httprouter.Handle
abbrev pub Handle : Type 0
Handle = Request → Outcome (List Write)

unfoldable pub version_route : Handle
version_route r = ok (write_body version ∷ [])

-- The wrapper logs before and after the call.
unfoldable pub debug_logging : Handle → String → Handle
debug_logging h path r = h r

-- The routes of one scheduler, with PredicateRoute(lvs) and so on.
pub record Handles : Type 0 where
  pub predicate_handle : Handle
  pub prioritize_handle : Handle
  pub bind_handle : Handle
  pub preemption_handle : Handle

-- `handle` is POST and GET: it panics at a path that is registered for the method.
pub record Router (R : Type 0) : Type 0 where
  pub new : R
  pub handle : String → String → Handle → R → Outcome R
  pub lookup : String → String → R → Option Handle

module _ {R : Type 0} (K : Router R) where
  unfoldable pub add_version : R → Outcome R
  unfolding debug_logging
  add_version router = K.handle "GET" version_path (debug_logging version_route version_path) router

  module _ (lvs : Handles) where
    unfoldable pub add_predicate : R → Outcome R
    unfolding debug_logging
    add_predicate router =
        K.handle "POST" predicates_path (debug_logging lvs.predicate_handle predicates_path) router

    unfoldable pub add_prioritize : R → Outcome R
    unfolding debug_logging
    add_prioritize router =
        K.handle "POST" priorities_path (debug_logging lvs.prioritize_handle priorities_path) router

    unfoldable pub add_bind : R → Outcome R
    unfolding debug_logging
    add_bind router = elim (K.lookup "POST" bind_path router) [
      | some _ ↦ ok router
      | none ↦ K.handle "POST" bind_path (debug_logging lvs.bind_handle bind_path) router
    ]

    unfoldable pub add_preemption : R → Outcome R
    unfolding debug_logging
    add_preemption router = elim (K.lookup "POST" preemption_path router) [
      | some _ ↦ ok router
      | none ↦
          K.handle "POST" preemption_path (debug_logging lvs.preemption_handle preemption_path)
            router
    ]

    -- The router that `main` serves.
    unfoldable pub routes : Outcome R
    routes = do
      r1 ← add_version K.new
      r2 ← add_predicate r1
      r3 ← add_prioritize r2
      r4 ← add_bind r3
      add_preemption r4

-- A path without wildcards.
abbrev pub is_static : String → Bool
is_static path = not (contains path ":") && not (contains path "*")

pub record Routing {R : Type 0} (K : Router R) : Type 0 where
  pub lookup_new : (method path : String) → K.lookup method path K.new ≡ none
  pub handle_free :
      (method path : String) (h : Handle) (r : R)
      → is_static path ≡ true
      → K.lookup method path r ≡ none
      → (s : R) × (K.handle method path h r ≡ ok s)
        × ((m p : String)
            → K.lookup m p s
              ≡ (if str_eq method m && str_eq path p then some h else K.lookup m p r))
  pub handle_taken :
      (method path : String) (g h : Handle) (r : R)
      → is_static path ≡ true
      → K.lookup method path r ≡ some g
      → K.handle method path h r ≡ panic

-- A table of handles, and the table with one entry more.
abbrev Table : Type 0
Table = String → String → Option Handle

abbrev entry : String → String → Handle → Table → Table
entry method path h t m p = if str_eq method m && str_eq path p then some h else t m p

-- Which handle serves a request, by its method and path.
abbrev pub served : Handles → Table
served lvs = entry "POST" preemption_path lvs.preemption_handle (
    entry "POST" bind_path lvs.bind_handle (
      entry "POST" priorities_path lvs.prioritize_handle (
        entry "POST" predicates_path lvs.predicate_handle
          (entry "GET" version_path version_route (λ m p. none)))))

module _ {R : Type 0} {K : Router R} (laws : Routing K) where
  -- The router serves what the table says.
  abbrev Serves : R → Table → Type 0
  Serves r t = (m p : String) → K.lookup m p r ≡ t m p

  handle-Serves :
      (method path : String) (h : Handle) (r : R) (t : Table)
      → is_static path ≡ true
      → Serves r t
      → t method path ≡ none
      → (s : R) × (K.handle method path h r ≡ ok s) × Serves s (entry method path h t)
  handle-Serves method path h r t static serves free =
      let (s, e, l) = laws.handle_free method path h r static (serves method path ∙ free) in
      (s, e, λ m p. l m p ∙ rw (serves m p) refl)

  module _ (lvs : Handles) where
    bind_new :
        (r : R)
        → K.lookup "POST" bind_path r ≡ none
        → add_bind K lvs r ≡ K.handle "POST" bind_path lvs.bind_handle r
    unfolding add_bind
    bind_new r e = rw (e, add_bind) refl

    preemption_new :
        (r : R)
        → K.lookup "POST" preemption_path r ≡ none
        → add_preemption K lvs r ≡ K.handle "POST" preemption_path lvs.preemption_handle r
    unfolding add_preemption
    preemption_new r e = rw (e, add_preemption) refl

    bind_again :
        (r : R) (h : Handle) → K.lookup "POST" bind_path r ≡ some h → add_bind K lvs r ≡ ok r
    unfolding add_bind
    bind_again r h e = rw (e, add_bind) refl

    preemption_again :
        (r : R) (h : Handle)
        → K.lookup "POST" preemption_path r ≡ some h
        → add_preemption K lvs r ≡ ok r
    unfolding add_preemption
    preemption_again r h e = rw (e, add_preemption) refl

    routes-chain :
        (r1 r2 r3 r4 r5 : R)
        → add_version K K.new ≡ ok r1
        → add_predicate K lvs r1 ≡ ok r2
        → add_prioritize K lvs r2 ≡ ok r3
        → add_bind K lvs r3 ≡ ok r4
        → add_preemption K lvs r4 ≡ ok r5
        → routes K lvs ≡ ok r5
    unfolding routes
    routes-chain r1 r2 r3 r4 r5 e1 e2 e3 e4 e5 = rw e1 (rw e2 (rw e3 (rw e4 e5)))

    -- The routes are registered without a panic, and the router serves each path with its handler: the
    -- version at GET, and the scheduler's four handlers at POST; it serves no other request.
    pub routes-served :
        (r : R) × (routes K lvs ≡ ok r) × ((m p : String) → K.lookup m p r ≡ served lvs m p)
    unfolding add_version add_predicate add_prioritize contains
    routes-served =
        let (r1, e1, s1) =
          handle-Serves "GET" version_path version_route K.new (λ m p. none) refl laws.lookup_new
            refl in
        let (r2, e2, s2) =
          handle-Serves "POST" predicates_path lvs.predicate_handle r1 _ refl s1 refl in
        let (r3, e3, s3) =
          handle-Serves "POST" priorities_path lvs.prioritize_handle r2 _ refl s2 refl in
        let (r4, e4, s4) = handle-Serves "POST" bind_path lvs.bind_handle r3 _ refl s3 refl in
        let (r5, e5, s5) =
          handle-Serves "POST" preemption_path lvs.preemption_handle r4 _ refl s4 refl in
        (
          r5,
          routes-chain r1 r2 r3 r4 r5 e1 e2 e3 (bind_new r3 (s3 "POST" bind_path) ∙ e4)
              (preemption_new r4 (s4 "POST" preemption_path) ∙ e5),
          s5,
        )

    -- Once the routes are registered, registering the bind or the preemption route again changes nothing,
    -- and registering another one again panics.
    routes_again :
        (r : R)
        → routes K lvs ≡ ok r
        → (add_bind K lvs r ≡ ok r)
          × (add_preemption K lvs r ≡ ok r)
          × (add_version K r ≡ panic)
          × (add_predicate K lvs r ≡ panic)
          × (add_prioritize K lvs r ≡ panic)
    unfolding add_version add_predicate add_prioritize contains
    routes_again r e =
        let (s, f, l) = routes-served in
        let same = ok-injective (sym e ∙ f) in
        rw same (
          bind_again s lvs.bind_handle (l "POST" bind_path),
          preemption_again s lvs.preemption_handle (l "POST" preemption_path),
          laws.handle_taken "GET" version_path version_route version_route s refl (l _ _),
          laws.handle_taken "POST" predicates_path lvs.predicate_handle lvs.predicate_handle s refl
              (l _ _),
          laws.handle_taken "POST" priorities_path lvs.prioritize_handle lvs.prioritize_handle s
              refl (l _ _),
        )
