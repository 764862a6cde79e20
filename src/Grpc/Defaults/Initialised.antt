-- ===== src/Grpc/Defaults/Initialised.antt =====
-- That `init` of plugins/grpc/stats/types.go registers the default measures and views of both sides.
use instrumentation_go.Base.{
  ◌≢◌, ℕ, ◌≡◌, ◌∙◌, sym, Bool, true, false, not, ◌&&◌, ◌||◌, List, [], ◌∷◌, map, Bytes, bytes_eq,
  nat_eq, eqb, eqb_iff, All, inl, inr, Bool-cases, ap, arith, none, subst,
}
use instrumentation_go.Base.GoMap.{GoMap, lookup, contains}
use instrumentation_go.Stats.Outcome.{Returns, Returns-bind, Returns-map}
use instrumentation_go.Stats.Float64.{Float64}
use instrumentation_go.Stats.View.{is_collecting}
use instrumentation_go.Stats.Commands.{Objects, Worker}
use instrumentation_go.Grpc.Defaults.{
  create_measures, register_views, register_defaults, init_defaults,
}
use instrumentation_go.Grpc.Defaults.Measured.{
  is_among, is_distinct, IsNewMeasure, IsNewView, IsCreated, IsFiled, Creates,
  create_measures-Creates,
}
use instrumentation_go.Grpc.Defaults.Registered.{Collects, Registers, register_views-Registers}

-- No name is in both lists.
abbrev pub is_apart : List Bytes → List Bytes → Bool
is_apart [] ns = true
is_apart (n ∷ ms) ns = not (is_among n ns) && is_apart ms ns

abbrev pub is_listed : ℕ → List ℕ → Bool
is_listed m [] = false
is_listed m (n ∷ ns) = eqb m n || is_listed m ns

abbrev pub are_listed : List ℕ → List ℕ → Bool
are_listed [] ns = true
are_listed (m ∷ ms) ns = is_listed m ns && are_listed ms ns

All-map : (P Q : ℕ → Type 0) (xs : List ℕ) → ((x : ℕ) → P x → Q x) → All P xs → All Q xs
All-map P Q [] g h = tt
All-map P Q (x ∷ xs) g (h, hs) = (g x h, All-map P Q xs g hs)

All-listed : (P : ℕ → Type 0) (m : ℕ) (ns : List ℕ) → is_listed m ns ≡ true → All P ns → P m
All-listed P m [] l h = absurd (ground arith)
All-listed P m (n ∷ ns) l (h, hs) = elim (Bool-cases (eqb m n)) [
  | inl same ↦ subst P (sym ((eqb_iff m n).0 same)) h
  | inr other ↦ All-listed P m ns (ground arith) hs
]

All-measures :
    (P : ℕ → Type 0) (m_of : ℕ → ℕ) (vs ms : List ℕ)
    → are_listed (map m_of vs) ms ≡ true
    → All P ms
    → All (λ v. P (m_of v)) vs
All-measures P m_of [] ms l h = tt
All-measures P m_of (v ∷ vs) ms l h =
    (All-listed P (m_of v) ms (ground arith) h, All-measures P m_of vs ms (ground arith) h)

All-apart :
    (P Q : ℕ → Type 0) (name : ℕ → Bytes) (ns : List Bytes) (xs : List ℕ)
    → ((x : ℕ) → is_among (name x) ns ≡ false → P x → Q x)
    → is_apart (map name xs) ns ≡ true
    → All P xs
    → All Q xs
All-apart P Q name ns [] g a h = tt
All-apart P Q name ns (x ∷ xs) g a (h, hs) =
    (g x (ground arith) h, All-apart P Q name ns xs g (ground arith) hs)

module _ {R : Type 0} ⦃f : Float64 R⦄ (o : Objects R) where
  abbrev pub view_name : ℕ → Bytes
  view_name v = (o.view_at v).name

  -- The measures and views of a side: no two have a name in common, the views are of these measures, and no
  -- measure is nil.
  pub record IsSide (ms vs : List ℕ) : Type 0 where
    pub measures_differ : is_distinct (map o.measure_name ms) ≡ true
    pub views_differ : is_distinct (map view_name vs) ≡ true
    pub real : All (λ m. m ≢ 0) ms
    pub measured : are_listed (map (λ v. (o.view_at v).m) vs) ms ≡ true

  -- Nothing is filed under the names of the measures and of the views yet.
  abbrev pub IsFree : Worker R → List ℕ → List ℕ → Type 0
  IsFree w ms vs = All (IsNewMeasure o w) ms × All (IsNewView o w) vs

  record Initialises (ms vs : List ℕ) (w w' : Worker R) : Type 0 where
    filed : All (IsFiled o w') ms
    keeps_filed : (m : ℕ) → IsFiled o w m → IsFiled o w' m
    collects : All (Collects o w') vs
    keeps : (v : ℕ) → Collects o w v → Collects o w' v
    other_measures :
        (n : Bytes)
        → is_among n (map o.measure_name ms) ≡ false
        → lookup n w'.registry.measures_by_name ≡ lookup n w.registry.measures_by_name
    other_views :
        (n : Bytes)
        → is_among n (map view_name vs) ≡ false
        → lookup n w'.registry.views_by_name ≡ lookup n w.registry.views_by_name

  keeps-IsFree :
      (ms vs ms' vs' : List ℕ) (w w' : Worker R)
      → Initialises ms vs w w'
      → is_apart (map o.measure_name ms') (map o.measure_name ms) ≡ true
      → is_apart (map view_name vs') (map view_name vs) ≡ true
      → IsFree w ms' vs'
      → IsFree w' ms' vs'
  keeps-IsFree ms vs ms' vs' w w' i a b (h, k) = (
    All-apart (IsNewMeasure o w) (IsNewMeasure o w') o.measure_name (map o.measure_name ms) ms'
        (λ x away new. i.other_measures (o.measure_name x) away ∙ new) a h,
    All-apart (IsNewView o w) (IsNewView o w') view_name (map view_name vs) vs'
        (λ x away new. i.other_views (view_name x) away ∙ new) b k,
  )

  kept :
      (w w' : Worker R)
      → w'.registry.measures_by_name ≡ w.registry.measures_by_name
      → w'.registry.measures ≡ w.registry.measures
      → (m : ℕ) → IsFiled o w m
      → IsFiled o w' m
  kept w w' e d m (named, there) =
      (ap (lookup (o.measure_name m)) e ∙ named, ap (contains m) d ∙ there)

  All-kept :
      (w w' : Worker R)
      → w'.registry.measures_by_name ≡ w.registry.measures_by_name
      → w'.registry.measures ≡ w.registry.measures
      → (ms : List ℕ) → All (IsFiled o w) ms
      → All (IsFiled o w') ms
  All-kept w w' e d ms = All-map (IsFiled o w) (IsFiled o w') ms (kept w w' e d)

  All-IsCreated : (w : Worker R) (ms : List ℕ) → All (IsFiled o w) ms → All (IsCreated o w) ms
  All-IsCreated w ms = All-map (IsFiled o w) (IsCreated o w) ms (λ m k. k.0)

  register_defaults-Initialises :
      (ms vs : List ℕ) (w : Worker R)
      → IsSide ms vs
      → IsFree w ms vs
      → Returns (Initialises ms vs w) (register_defaults o ms vs w)
  unfolding register_defaults
  register_defaults-Initialises ms vs w side (h, k) =
      Returns-bind (Creates o ms w) (Initialises ms vs w) (create_measures o ms w)
        (register_views o vs) (create_measures-Creates o ms w side.measures_differ h)
        λ w₁ c.
          let free : All (IsNewView o w₁) vs =
            subst (λ (m : GoMap Bytes ℕ). All (λ v. lookup (view_name v) m ≡ none) vs)
              (sym c.same_views) k in
          Returns-map (Registers o vs w₁) (Initialises ms vs w) (register_views o vs w₁)
            (register_views-Registers o vs w₁ side.views_differ free
              (All-measures (IsCreated o w₁) (λ v. (o.view_at v).m) vs ms side.measured
                (All-IsCreated w₁ ms c.created))
              (All-measures (λ m. m ≢ 0) (λ v. (o.view_at v).m) vs ms side.measured side.real))
            λ w' r. record {
              filed = All-kept w₁ w' r.same_measures r.same_filed ms c.created;
              keeps_filed = λ m k. kept w₁ w' r.same_measures r.same_filed m (c.keeps m k);
              collects = r.collects;
              keeps = λ v e. r.keeps v (record {
                registered = ap (contains v) c.same_registered ∙ e.registered;
                named = ap (lookup (view_name v)) c.same_views ∙ e.named;
                attached = ap (λ vs. contains v (vs (o.view_at v).m)) c.same_attached ∙ e.attached;
                collecting = ap (λ states. is_collecting (states v)) c.same_states ∙ e.collecting;
              });
              other_measures = λ n a. ap (lookup n) r.same_measures ∙ c.others n a;
              other_views = λ n a. r.others n a ∙ ap (lookup n) c.same_views;
            }

  -- What `init` makes of the measures and views of one side.
  abbrev pub IsRegistered : Worker R → List ℕ → List ℕ → Type 0
  IsRegistered w ms vs = All (IsFiled o w) ms × All (Collects o w) vs

  -- Where the measures and views of two sides have names of their own, under which nothing is filed yet, and
  -- where the views are of the measures of their side, `init` registers them all without ending the process:
  -- all measures are filed, all views are registered, attached to their measures and collect, and a view that
  -- did so before still does.
  pub init_defaults-Collects :
      (server_ms server_vs client_ms client_vs : List ℕ) (w : Worker R)
      → IsSide server_ms server_vs
      → IsSide client_ms client_vs
      → is_apart (map o.measure_name client_ms) (map o.measure_name server_ms) ≡ true
      → is_apart (map view_name client_vs) (map view_name server_vs) ≡ true
      → IsFree w server_ms server_vs
      → IsFree w client_ms client_vs
      → Returns
          (λ w'.
            IsRegistered w' server_ms server_vs
            × IsRegistered w' client_ms client_vs
            × ((v : ℕ) → Collects o w v → Collects o w' v))
          (init_defaults o server_ms server_vs client_ms client_vs w)
  unfolding init_defaults
  init_defaults-Collects sms svs cms cvs w s c am av fs fc =
      Returns-bind (Initialises sms svs w) _ (register_defaults o sms svs w)
        (register_defaults o cms cvs) (register_defaults-Initialises sms svs w s fs)
        λ w₁ i.
          Returns-map (Initialises cms cvs w₁) _ (register_defaults o cms cvs w₁)
            (register_defaults-Initialises cms cvs w₁ c
              (keeps-IsFree sms svs cms cvs w w₁ i am av fc))
            λ w₂ j. (
              (
                All-map (IsFiled o w₁) (IsFiled o w₂) sms j.keeps_filed i.filed,
                All-map (Collects o w₁) (Collects o w₂) svs j.keeps i.collects,
              ),
              (j.filed, j.collects),
              λ v e. j.keeps v (i.keeps v e),
            )
