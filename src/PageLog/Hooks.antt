-- ===== src/PageLog/Hooks.antt =====
-- Registering the probes of huawei_log_page.c, and loading and unloading the module.
use linux_project.Base.{
  ℕ, ◌≡◌, refl, Bool, true, false, ◌&&◌, not, List, [], ◌∷◌, ◌++◌, ◌==◌, Bool-cases, inl, inr,
  if◌then◌else◌, append_assoc, arith,
}
use linux_project.Kernel.{Addr, null}
use linux_project.PageLog.{
  Module, Probe, free_pages_ok, free_hot_cold_page, alloc_pages_nodemask, probe_eq, Notice, hello,
  goodbye, refused, planted, removed, Cmd, pure, ◌>>=◌, ◌>>◌, modify, printk,
}
use linux_project.PageLog.Pools.Supply.{IsShared, Uses-IsShared, started}
use linux_project.PageLog.Pools.{
  Node, get_nr_pages, max_active, minus_one, fresh_pool-pool, init_lp_pool, init_st_pool,
  exit_lp_pool, exit_st_pool,
}

-- The body that the three `register_…` functions share; `accepted` says whether the kernel's answer is
-- not negative.
unfoldable pub register : Probe → Bool → Cmd ℕ
register p accepted =
    if accepted
    then (do modify (λ m. record m { probes = p ∷ m.probes }); printk (planted p); pure 0)
    else do printk (refused p); pure minus_one

abbrev pub register_alloc_pages_nodemask : Bool → Cmd ℕ
register_alloc_pages_nodemask = register alloc_pages_nodemask

abbrev pub register_free_pages_ok : Bool → Cmd ℕ
register_free_pages_ok = register free_pages_ok

abbrev pub register_free_hot_cold_page : Bool → Cmd ℕ
register_free_hot_cold_page = register free_hot_cold_page

abbrev pub remove_probe : Probe → List Probe → List Probe
remove_probe p [] = []
remove_probe p (q ∷ qs) = if probe_eq p q then qs else q ∷ remove_probe p qs

-- The body that the three `unregister_…` functions share.
unfoldable pub unregister : Probe → Cmd (Unit {0})
unregister p = do modify (λ m. record m { probes = remove_probe p m.probes }); printk (removed p)

abbrev pub unregister_alloc_pages_nodemask : Cmd (Unit {0})
unregister_alloc_pages_nodemask = unregister alloc_pages_nodemask

abbrev pub unregister_free_pages_ok : Cmd (Unit {0})
unregister_free_pages_ok = unregister free_pages_ok

abbrev pub unregister_free_hot_cold_page : Cmd (Unit {0})
unregister_free_hot_cold_page = unregister free_hot_cold_page

-- `accepts` holds the kernel's three answers.
unfoldable pub register_probes : (Probe → Bool) → Cmd ℕ
register_probes accepts = do
  ret ← register_free_pages_ok (accepts free_pages_ok)
  if not (ret == 0) then pure ret else do
    ret' ← register_free_hot_cold_page (accepts free_hot_cold_page)
    if not (ret' == 0) then (do unregister_free_pages_ok; pure ret') else do
      ret'' ← register_alloc_pages_nodemask (accepts alloc_pages_nodemask)
      if not (ret'' == 0)
          then (do unregister_free_hot_cold_page; unregister_free_pages_ok; pure ret'')
          else pure 0

unfoldable pub unregister_probes : Cmd (Unit {0})
unregister_probes = do
  unregister_alloc_pages_nodemask
  unregister_free_hot_cold_page
  unregister_free_pages_ok

-- What loading meets: the machine's frames, the kernel's configuration, and the answers of `vmalloc` and of the kernel's
-- registration.
pub record Loading : Type 0 where
  pub pfn_valid : ℕ → Bool
  pub nodes : List Node
  pub config_preempt : Bool
  pub nr_cpus : ℕ
  pub lp_addr : Addr
  pub st_addr : Addr
  pub accepts : Probe → Bool

unfoldable pub huawei_log_page_init : Loading → Cmd ℕ
huawei_log_page_init l = do
  printk hello
  ret ← init_lp_pool l.pfn_valid l.nodes l.lp_addr
  if not (ret == 0) then pure ret else do
    ret' ← init_st_pool l.config_preempt l.nr_cpus l.st_addr
    if not (ret' == 0) then (do exit_lp_pool; pure ret') else do
      ret'' ← register_probes l.accepts
      if not (ret'' == 0) then (do exit_st_pool; exit_lp_pool; pure ret'') else pure 0

unfoldable pub huawei_log_page_exit : Cmd (Unit {0})
huawei_log_page_exit = do unregister_probes; exit_st_pool; exit_lp_pool; printk goodbye

-- Whether everything that loading asks for is granted.
abbrev pub granted : Loading → Bool
granted l =
    not (l.lp_addr == null)
    && (not (l.st_addr == null)
        && (l.accepts free_pages_ok
            && (l.accepts free_hot_cold_page && l.accepts alloc_pages_nodemask)))

-- Loading that is refused anything, a pool's memory or one of the three probes, returns -1 and undoes
-- all that it has done: the arrays held and the probes registered are those from before.
pub init_undone :
    (l : Loading) (m : Module)
    → granted l ≡ false
    → let (ret, t) = huawei_log_page_init l m in
      (ret ≡ minus_one) × (t.held ≡ m.held) × (t.probes ≡ m.probes)
unfolding huawei_log_page_init init_lp_pool init_st_pool exit_lp_pool exit_st_pool register_probes
    register unregister
init_undone l m h =
    let lp_back = fresh_pool-pool (get_nr_pages l.pfn_valid l.nodes) l.lp_addr in
    let st_back = fresh_pool-pool (max_active l.config_preempt l.nr_cpus) l.st_addr in
    elim (Bool-cases (l.lp_addr == null)) [
      | inl e ↦ rw e (refl, refl, refl)
      | inr e ↦ elim (Bool-cases (l.st_addr == null)) [
        | inl f ↦ rw (e, f, lp_back) (refl, refl, refl)
        | inr f ↦ elim (Bool-cases (l.accepts free_pages_ok)) [
          | inr a ↦ rw (e, f, a, st_back, lp_back) (refl, refl, refl)
          | inl a ↦ elim (Bool-cases (l.accepts free_hot_cold_page)) [
            | inr b ↦ rw (e, f, a, b, st_back, lp_back) (refl, refl, refl)
            | inl b ↦ elim (Bool-cases (l.accepts alloc_pages_nodemask)) [
              | inr c ↦ rw (e, f, a, b, c, st_back, lp_back) (refl, refl, refl)
              | inl c ↦ absurd (ground arith)
            ]
          ]
        ]
      ]
    ]

-- What the log says of a loading that is granted everything: the function that allocates is watched
-- last, and so no page is recorded whose release would be missed.
abbrev pub notices : List Notice
notices =
    hello ∷ planted free_pages_ok ∷ planted free_hot_cold_page ∷ planted alloc_pages_nodemask ∷ []

log_lem :
    (xs : List Notice)
    → (((xs ++ hello ∷ []) ++ planted free_pages_ok ∷ []) ++ planted free_hot_cold_page ∷ [])
        ++ planted alloc_pages_nodemask ∷ []
      ≡ xs ++ notices
log_lem xs = simp append_assoc

-- Loading that is granted everything returns 0; of the records of both pools, as many as there are page
-- frames and probes that can be active at once, each one is in its chain exactly once; and the three probes
-- are registered, the one on the allocation last. Unloading then gives back both arrays and removes the
-- three probes.
pub load_and_unload :
    (l : Loading) (m : Module)
    → granted l ≡ true
    → let (ret, t) = huawei_log_page_init l m in
      let u = (huawei_log_page_exit t).1 in
      (ret ≡ 0)
      × IsShared (get_nr_pages l.pfn_valid l.nodes) t.lp_pool []
      × IsShared (max_active l.config_preempt l.nr_cpus) t.st_pool []
      × (t.log ≡ m.log ++ notices)
      × (t.probes ≡ alloc_pages_nodemask ∷ free_hot_cold_page ∷ free_pages_ok ∷ m.probes)
      × (u.held ≡ m.held)
      × (u.probes ≡ m.probes)
unfolding huawei_log_page_init huawei_log_page_exit init_lp_pool init_st_pool exit_lp_pool
    exit_st_pool register_probes unregister_probes register unregister
load_and_unload l m h =
    let e : (l.lp_addr == null) ≡ false = ground arith in
    let f : (l.st_addr == null) ≡ false = ground arith in
    let a : l.accepts free_pages_ok ≡ true = ground arith in
    let b : l.accepts free_hot_cold_page ≡ true = ground arith in
    let c : l.accepts alloc_pages_nodemask ≡ true = ground arith in
    let lp_back = fresh_pool-pool (get_nr_pages l.pfn_valid l.nodes) l.lp_addr in
    let st_back = fresh_pool-pool (max_active l.config_preempt l.nr_cpus) l.st_addr in
    rw (e, f, a, b, c, st_back, lp_back)
      (
        refl,
        Uses-IsShared (get_nr_pages l.pfn_valid l.nodes) l.lp_addr started,
        Uses-IsShared (max_active l.config_preempt l.nr_cpus) l.st_addr started,
        log_lem m.log,
        refl,
        refl,
        refl,
      )
