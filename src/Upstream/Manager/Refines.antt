-- ===== src/Upstream/Manager/Refines.antt =====
-- The manager of the upstream handlers as a function from keys to handlers.
use Prim.Native.String.{String}
use text.Mathlib.Text.{◌==◌ as str_eq}
use text.Mathlib.TextEquality.{eq_iff}
use text.Mathlib.TextPositions.{eq_refl}
use mathlib.Core.Path.{fun_ext}
use meta_protocol_proxy.Base.{
  ◌≡◌, refl, sym, ap, ◌∙◌, inl, inr, Bool, true, false, Option, none, some, [], ◌∷◌, ◌++◌,
  if◌then◌else◌, Bool-cases, Option-cases, arith,
}
use meta_protocol_proxy.Upstream.Manager.{
  Handlers, get, add, del, clear, ClusterApi, found, key_of, create_handler, with_pool,
  with_cluster, get_upstream_handler,
}

-- What the manager is for its users.
abbrev pub View : Type 0 → Type 0
View A = String → Option A

abbrev pub view : {A : Type 0} → Handlers A → View A
view hs = λ key. get key hs

abbrev or_new : {A : Type 0} → Option A → Option A → Option A
or_new (some h) new = some h
or_new none new = new

-- Adding keeps a handler that is there.
abbrev pub added : {A : Type 0} → String → A → View A → View A
added key h v = λ k. if str_eq key k then or_new (v k) (some h) else v k

abbrev pub deleted : {A : Type 0} → String → View A → View A
deleted key v = λ k. if str_eq key k then none else v k

module _ {A : Type 0} where
  get-append :
      (k key : String) (h : A) (hs : Handlers A)
      → get k (hs ++ (key, h) ∷ []) ≡ or_new (get k hs) (if str_eq key k then some h else none)
  unfolding get
  get-append k key h [] = ground arith
  get-append k key h ((j, x) ∷ hs) = ground (arith, get-append k key h hs)

  get-del :
      (k key : String) (hs : Handlers A)
      → get k (del key hs) ≡ (if str_eq key k then none else get k hs)
  unfolding get del
  get-del k key [] = ground arith
  get-del k key ((j, x) ∷ hs) =
      ground (arith, eq_iff key k, eq_iff j k, eq_iff j key, get-del k key hs)

  get-absent :
      (k key : String) (h : A) (hs : Handlers A)
      → get key hs ≡ none
      → get k (hs ++ (key, h) ∷ []) ≡ added key h (view hs) k
  get-absent k key h hs e = get-append k key h hs ∙ chosen (get k hs) (str_eq key k)
    where
      chosen :
          (o : Option A) (b : Bool)
          → or_new o (if b then some h else none) ≡ (if b then or_new o (some h) else o)
      chosen (some x) true = refl
      chosen (some x) false = refl
      chosen none true = refl
      chosen none false = refl

  get-present :
      (k key : String) (h x : A) (hs : Handlers A)
      → get key hs ≡ some x
      → get k hs ≡ added key h (view hs) k
  get-present k key h x hs e = elim (Bool-cases (str_eq key k)) [
    | inl same ↦
        let there : get k hs ≡ some x =
          ap (λ (j : String). get j hs) (sym ((eq_iff key k).0 same)) ∙ e in
        rw same (there ∙ ap (λ (o : Option A). or_new o (some h)) (sym there))
    | inr other ↦ rw other refl
  ]

  get-add :
      (k key : String) (h : A) (hs : Handlers A)
      → get k (add key (some h) hs) ≡ added key h (view hs) k
  unfolding add
  get-add k key h hs = elim (Option-cases (get key hs)) [
    | inl e ↦ rw (add, e) (get-absent k key h hs e)
    | inr (x, e) ↦ rw (add, e) (get-present k key h x hs e)
  ]

  -- The manager is a function from keys to handlers: adding a handler changes it at the key, and
  -- only where there was none; adding a null handler changes nothing; deleting leaves the key empty
  -- and the others as they were; and clearing leaves every key empty.
  pub manager-View :
      (key : String) (h : A) (hs : Handlers A)
      → (view (add key (some h) hs) ≡ added key h (view hs))
        × (view (add key none hs) ≡ view hs)
        × (view (del key hs) ≡ deleted key (view hs))
        × (view (clear hs) ≡ (λ k. none))
  unfolding add clear get
  manager-View key h hs =
      (fun_ext λ k. get-add k key h hs, refl, fun_ext λ k. get-del k key hs, refl)

module _ {A : Type 0} (C : ClusterApi A) where
  open C use {Cluster, Pool}

  created :
      (key : String) (p : Pool) (h : A) (hs : Handlers A)
      → C.start key p ≡ (h, false)
      → create_handler C key p hs ≡ (found h, add key (some h) hs)
  unfolding create_handler
  created key p h hs e = rw e refl

  reused :
      (name : String) (c : Cluster) (p : Pool) (h : A) (hs : Handlers A)
      → C.cluster name ≡ some c
      → C.tcp_pool_data c ≡ some p
      → get (key_of C name p) hs ≡ some h
      → get_upstream_handler C name hs ≡ (found h, hs)
  unfolding get_upstream_handler with_cluster with_pool
  reused name c p h hs ec ep eh = rw (ec, ep, with_pool, eh) refl

  made :
      (name : String) (c : Cluster) (p : Pool) (h : A) (hs : Handlers A)
      → C.cluster name ≡ some c
      → C.tcp_pool_data c ≡ some p
      → get (key_of C name p) hs ≡ none
      → C.start (key_of C name p) p ≡ (h, false)
      → get_upstream_handler C name hs ≡ (found h, add (key_of C name p) (some h) hs)
  unfolding get_upstream_handler with_cluster with_pool
  made name c p h hs ec ep eh es = rw (ec, ep, with_pool, eh) (created (key_of C name p) p h hs es)

  -- On a cluster that is known and has a host, where the manager has no handler for the two and the
  -- pool does not refuse at once: getUpstreamHandler starts a handler and adds it under the cluster's
  -- name and the host's address, and for the other keys the manager is as before; asked again while
  -- the pool gives the same host, it gives the same handler and starts none.
  pub get_upstream_handler_twice :
      (name : String) (c : Cluster) (p : Pool) (h : A) (hs : Handlers A)
      → C.cluster name ≡ some c
      → C.tcp_pool_data c ≡ some p
      → get (key_of C name p) hs ≡ none
      → C.start (key_of C name p) p ≡ (h, false)
      → (hs' : Handlers A) × (get_upstream_handler C name hs ≡ (found h, hs'))
        × (view hs' ≡ added (key_of C name p) h (view hs))
        × (get_upstream_handler C name hs' ≡ (found h, hs'))
  get_upstream_handler_twice name c p h hs ec ep eh es =
      let key = key_of C name p in
      let hs' = add key (some h) hs in
      let there : get key hs' ≡ some h = get-add key key h hs ∙ rw (eq_refl key, eh) refl in
      (
        hs',
        made name c p h hs ec ep eh es,
        fun_ext λ k. get-add k key h hs,
        reused name c p h hs' ec ep there,
      )
