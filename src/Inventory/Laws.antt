-- ===== src/Inventory/Laws.antt =====
-- Adding and reading entries are inverse, and the difference is exactly what was dropped.
use mathlib.Core.List.{Memᴰ, Mem, Perm}
use mathlib.Core.List.Perm
use mathlib.Core.Path.{subst}
use mathlib.Core.Logic.{∥∥₁_map}
use flux_operator.Base.{
  ◌≡◌, refl, sym, ap, ◌∙◌, ◌≢◌, ◌↔◌, ok, err, ok_injective, Result-cases, arith, List, [], ◌∷◌, map,
  All, All-mem, some, eq_iff, inl, inr, ◌⊎◌, List-cases, Error,
}
use flux_operator.Api.Instance.{ResourceRef, ResourceInventory}
use flux_operator.Inventory.{
  ObjMetadata, ChangeSetEntry, Objects, new, refs_of, add_change_set, object_of, metadata_of,
  list_metadata, version_of, stale_of, sorted_stale, diff,
}

-- What is documented of the set difference and of a sort.
pub record IsObjects (os : Objects) : Type 0 where
  pub mem-set_diff :
      (m : ObjMetadata) (a b : List ObjMetadata)
      → Memᴰ m (os.set_diff a b) ↔ (Memᴰ m a × ¬ (Memᴰ m b))
  pub sort_perm : (xs : List os.Object) → Perm (os.sort xs) xs

-- An identifier is read back from its text.
abbrev pub IsReadable : Objects → ChangeSetEntry → Type 0
IsReadable os e = os.parse_id (os.id_of e.obj_metadata) ≡ ok e.obj_metadata

-- No identifier is recorded twice.
abbrev pub DistinctIds : List ResourceRef → Type 0
DistinctIds [] = Unit
DistinctIds (e ∷ es) = All (λ f. e.id ≢ f.id) es × DistinctIds es

module _ (os : Objects) where
  metadata_of-refs_of :
      (set : List ChangeSetEntry)
      → All (IsReadable os) set
      → metadata_of os (refs_of os set) ≡ ok (map (λ e. e.obj_metadata) set)
  unfolding metadata_of refs_of
  metadata_of-refs_of [] h = refl
  metadata_of-refs_of (e ∷ set) h = rw (h.0, metadata_of-refs_of set h.1)

  -- The inventory made of a change set, whose identifiers can be read back, lists the metadata of
  -- its entries, all of them in their order.
  pub list_metadata-add_change_set :
      (set : List ChangeSetEntry)
      → All (IsReadable os) set
      → list_metadata os (add_change_set os new (some set)) ≡ ok (map (λ e. e.obj_metadata) set)
  unfolding list_metadata add_change_set new
  list_metadata-add_change_set set h = metadata_of-refs_of set h

  -- The version recorded with an entry is the one that is found for its metadata, where no
  -- identifier is recorded twice.
  version_of-entry :
      (entries : List ResourceRef) {e : ResourceRef} {m : ObjMetadata}
      → DistinctIds entries
      → Memᴰ e entries
      → os.id_of m ≡ e.id
      → version_of os entries m ≡ e.version
  unfolding version_of
  version_of-entry [] d i h = elim i [ ]
  version_of-entry (f ∷ entries) {e} {m} d (Memᴰ.head i) h =
      ground (arith, eq_iff f.id (os.id_of m), ap (λ r. r.id) i, ap (λ r. r.version) i)
  version_of-entry (f ∷ entries) {e} {m} d (Memᴰ.tail i) h = ground (
    arith,
    eq_iff f.id (os.id_of m),
    All-mem (λ g. f.id ≢ g.id) entries d.0 i,
    version_of-entry entries {e = e} {m = m} d.1 i h,
  )

  mem-stale_of :
      (entries : List ResourceRef) (metas : List ObjMetadata) {m : ObjMetadata}
      → Memᴰ m metas
      → Memᴰ (object_of os m (version_of os entries m)) (stale_of os entries metas)
  unfolding stale_of
  mem-stale_of entries [] i = elim i [ ]
  mem-stale_of entries (n ∷ metas) (Memᴰ.head e) =
      Memᴰ.head (ap (λ k. object_of os k (version_of os entries k)) e)
  mem-stale_of entries (n ∷ metas) (Memᴰ.tail i) = Memᴰ.tail (mem-stale_of entries metas i)

  stale_of-mem :
      (entries : List ResourceRef) (metas : List ObjMetadata) {o : os.Object}
      → Memᴰ o (stale_of os entries metas)
      → (m : ObjMetadata) × Memᴰ m metas × (o ≡ object_of os m (version_of os entries m))
  unfolding stale_of
  stale_of-mem entries [] i = elim i [ ]
  stale_of-mem entries (n ∷ metas) (Memᴰ.head e) = (n, Memᴰ.head refl, e)
  stale_of-mem entries (n ∷ metas) (Memᴰ.tail i) =
      let (m, j, e) = stale_of-mem entries metas i in (m, Memᴰ.tail j, e)

  -- The metadata of the entries are those that their identifiers parse to.
  metadata_of-cons :
      (e : ResourceRef) (entries : List ResourceRef) {metas : List ObjMetadata}
      → metadata_of os (e ∷ entries) ≡ ok metas
      → (m : ObjMetadata) × (ms : List ObjMetadata) × (os.parse_id e.id ≡ ok m)
        × (metadata_of os entries ≡ ok ms)
        × (metas ≡ m ∷ ms)
  unfolding metadata_of
  metadata_of-cons e entries h = elim (Result-cases (os.parse_id e.id)) [
    | inl (m, p) ↦ elim (Result-cases (metadata_of os entries)) [
      | inl (ms, q) ↦ (m, ms, p, q, ground arith)
      | inr (inl (x, q)) ↦ absurd (ground arith)
      | inr (inr q) ↦ absurd (ground arith)
    ]
    | inr (inl (x, p)) ↦ absurd (ground arith)
    | inr (inr p) ↦ absurd (ground arith)
  ]

  entry-mem :
      (entries : List ResourceRef) {metas : List ObjMetadata} {e : ResourceRef} {m : ObjMetadata}
      → metadata_of os entries ≡ ok metas
      → Memᴰ e entries
      → os.parse_id e.id ≡ ok m
      → Memᴰ m metas
  entry-mem [] h i r = elim i [ ]
  entry-mem (f ∷ entries) h (Memᴰ.head k) r =
      let (n, ms, p, q, x) = metadata_of-cons f entries h in
      rw x (Memᴰ.head (ok_injective (sym r ∙ (ap (λ g. os.parse_id g.id) k ∙ p))))
  entry-mem (f ∷ entries) h (Memᴰ.tail k) r =
      let (n, ms, p, q, x) = metadata_of-cons f entries h in
      rw x (Memᴰ.tail (entry-mem entries q k r))

  mem-entry :
      (entries : List ResourceRef) {metas : List ObjMetadata} {m : ObjMetadata}
      → metadata_of os entries ≡ ok metas
      → Memᴰ m metas
      → (e : ResourceRef) × Memᴰ e entries × (os.parse_id e.id ≡ ok m)
  unfolding metadata_of
  mem-entry [] {metas} {m} h i = elim (subst (Memᴰ m) (sym (ok_injective h)) i) [ ]
  mem-entry (f ∷ entries) {metas} {m} h i =
      let (n, ms, p, q, x) = metadata_of-cons f entries h in
      from p (mem-entry entries q) (subst (Memᴰ m) x i)
    where
      from :
          {n : ObjMetadata} {ms : List ObjMetadata}
          → os.parse_id f.id ≡ ok n
          → (Memᴰ m ms → (e : ResourceRef) × Memᴰ e entries × (os.parse_id e.id ≡ ok m))
          → Memᴰ m (n ∷ ms)
          → (e : ResourceRef) × Memᴰ e (f ∷ entries) × (os.parse_id e.id ≡ ok m)
      from p rest (Memᴰ.head k) = (f, Memᴰ.head refl, p ∙ ap ok (sym k))
      from p rest (Memᴰ.tail k) = let (e, c, r) = rest k in (e, Memᴰ.tail c, r)

module _ (os : Objects) (l : IsObjects os) where
  sorted_stale-perm :
      (entries : List ResourceRef) (metas : List ObjMetadata)
      → Perm (sorted_stale os entries metas) (stale_of os entries metas)
  unfolding sorted_stale stale_of
  sorted_stale-perm entries [] = Perm.refl []
  sorted_stale-perm entries (m ∷ metas) = l.sort_perm _

  -- Where both inventories can be read and the first records no identifier twice and each the way
  -- it is written, `Diff` succeeds. Its result has, for each entry of the first whose identifier
  -- the second does not list, the object of this identifier at the version that the entry records,
  -- and nothing else.
  pub diff_lem :
      (inv target : ResourceInventory) {old kept : List ObjMetadata}
      → list_metadata os inv ≡ ok old
      → list_metadata os target ≡ ok kept
      → DistinctIds inv.entries
      → ((e : ResourceRef) (m : ObjMetadata)
          → Memᴰ e inv.entries
          → os.parse_id e.id ≡ ok m
          → os.id_of m ≡ e.id)
      → (objects : List os.Object) × (diff os inv target ≡ ok objects)
        × ((e : ResourceRef) (m : ObjMetadata)
            → Memᴰ e inv.entries
            → os.parse_id e.id ≡ ok m
            → ¬ Memᴰ m kept
            → Mem (os.reference m.group e.version m.kind m.name m.namespace) objects)
        × ((o : os.Object)
            → Mem o objects
            → ∥ (
                (e : ResourceRef) × (m : ObjMetadata) × Memᴰ e inv.entries
                × (os.parse_id e.id ≡ ok m)
                × (¬ Memᴰ m kept)
                × (o ≡ os.reference m.group e.version m.kind m.name m.namespace)) ∥₁)
  unfolding diff list_metadata object_of
  diff_lem inv target {old} {kept} p q distinct written = (
    sorted_stale os inv.entries (os.set_diff old kept),
    rw (diff, p, q),
    λ e m i r n.
        subst
          (λ v.
            Mem (os.reference m.group v m.kind m.name m.namespace)
              (sorted_stale os inv.entries (os.set_diff old kept)))
          (version_of-entry os inv.entries distinct i (written e m i r))
          ((Perm.mem_iff (sorted_stale-perm inv.entries (os.set_diff old kept))).1
            ∣ mem-stale_of os inv.entries (os.set_diff old kept)
              ((l.mem-set_diff m old kept).1 (entry-mem os inv.entries p i r, n)) ∣₁),
    λ o i. ∥∥₁_map ((Perm.mem_iff (sorted_stale-perm inv.entries (os.set_diff old kept))).0 i) (λ j.
        let (m, k, x) = stale_of-mem os inv.entries (os.set_diff old kept) j in
        let (a, b) = (l.mem-set_diff m old kept).0 k in
        let (e, c, r) = mem-entry os inv.entries p a in
        (
          e,
          m,
          c,
          r,
          b,
          x
              ∙ ap (λ v. os.reference m.group v m.kind m.name m.namespace)
                  (version_of-entry os inv.entries distinct c (written e m c r)),
        )),
  )

  -- An inventory that can be read has nothing stale against itself.
  pub diff_self :
      (inv : ResourceInventory) {old : List ObjMetadata}
      → list_metadata os inv ≡ ok old
      → diff os inv inv ≡ ok []
  unfolding diff
  diff_self inv {old} p = rw (diff, p) (ap (λ ms. ok (sorted_stale os inv.entries ms)) nothing)
    where
      nothing : os.set_diff old old ≡ []
      nothing = elim (List-cases (os.set_diff old old)) [
        | inl e ↦ e
        | inr (m, (r, e)) ↦
            let (a, b) = (l.mem-set_diff m old old).0 (subst (Memᴰ m) (sym e) (Memᴰ.head refl)) in
            absurd (b a)
      ]

  -- If either inventory cannot be read, `Diff` fails and names no object.
  diff_unreadable :
      (inv target : ResourceInventory) {x : Error} {old : List ObjMetadata}
      → (list_metadata os inv ≡ err x)
        ⊎ ((list_metadata os inv ≡ ok old) × (list_metadata os target ≡ err x))
      → diff os inv target ≡ err x
  unfolding diff
  diff_unreadable inv target (inl p) = rw (diff, p)
  diff_unreadable inv target (inr (p, q)) = rw (diff, p, q)
