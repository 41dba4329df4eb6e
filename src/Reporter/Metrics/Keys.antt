-- ===== src/Reporter/Metrics/Keys.antt =====
-- What each way of setting a label does to the keys.
use flux_operator.Base.{
  String, ◌≡◌, refl, ap, ◌∙◌, Bool, true, false, Option, none, some, List, [], ◌∷◌, ◌++◌, Dict,
  insert, map, ok, if◌then◌else◌, arith, eq_iff, Bool-cases, Option-cases, inl, inr, lookup,
}
use flux_operator.Builder.Options.{contain_element_string}
use flux_operator.Reporter.Metrics.{
  resource_labels, label_condition, label_conditions, is_ready_type, assign_if,
}

abbrev pub keys : Dict String → List String
keys = map (λ e. e.0)

-- An assignment to a key that is there leaves the keys alone.
pub keys-insert :
    (k v : String) (m : Dict String)
    → contain_element_string (keys m) k ≡ true
    → keys (insert k v m) ≡ keys m
unfolding insert contain_element_string
keys-insert k v [] h = cc
keys-insert k v ((j, w) ∷ m) h = ground (arith, eq_iff j k, keys-insert k v m)

pub keys-insert_absent :
    (k v : String) (m : Dict String)
    → contain_element_string (keys m) k ≡ false
    → keys (insert k v m) ≡ keys m ++ k ∷ []
unfolding insert contain_element_string
keys-insert_absent k v [] h = refl
keys-insert_absent k v ((j, w) ∷ m) h = ground (arith, eq_iff j k, keys-insert_absent k v m)

-- So does one that depends on a field.
pub keys-assign_if :
    (k : String) (o : Option String) (m : Dict String) {ks : List String}
    → contain_element_string ks k ≡ true
    → keys m ≡ ks
    → keys (assign_if k o m) ≡ ks
unfolding assign_if
keys-assign_if k none m h e = e
keys-assign_if k (some v) m h e = keys-insert k v m (rw e h) ∙ e

abbrev pub start : List String
start = "uid" ∷ "kind" ∷ "name" ∷ "exported_namespace" ∷ "ready" ∷ "reason" ∷ []

pub keys-label_condition :
    (c m : Dict String) {r : Dict String}
    → keys m ≡ start
    → label_condition c m ≡ ok r
    → keys r ≡ start
unfolding label_condition contain_element_string assign_if
keys-label_condition c m {r} e h = elim (Option-cases (lookup "status" c)) [
  | inl n ↦ absurd (ground arith)
  | inr (s, p) ↦ elim (Option-cases (lookup "reason" c)) [
    | inl n ↦ absurd (ground arith)
    | inr (t, q) ↦
        let again : keys (insert "reason" t (insert "ready" s m)) ≡ start =
          keys-assign_if "reason" (some t) _ refl (keys-assign_if "ready" (some s) m refl e) in
        let labelled : insert "reason" t (insert "ready" s m) ≡ r = ground arith in
        rw (← labelled) again
  ]
]

pub keys-label_conditions :
    (cs : List (Option (Dict String))) (m : Dict String) {r : Dict String}
    → keys m ≡ start
    → label_conditions cs m ≡ ok r
    → keys r ≡ start
unfolding label_conditions
keys-label_conditions [] m {r} e h = let same : m ≡ r = ground arith in rw (← same) e
keys-label_conditions (none ∷ cs) m e h = cc
keys-label_conditions (some c ∷ cs) m e h = elim (Bool-cases (is_ready_type (lookup "type" c))) [
  | inl y ↦ keys-label_condition c m e (rw (label_conditions, y) at h)
  | inr n ↦ keys-label_conditions cs m e (rw (label_conditions, n) at h)
]

-- One to a key that is not there adds it at the end.
pub keys-insert_new :
    (k v : String) (m : Dict String) {ks : List String}
    → contain_element_string ks k ≡ false
    → keys m ≡ ks
    → keys (insert k v m) ≡ ks ++ k ∷ []
keys-insert_new k v m h e = keys-insert_absent k v m (rw e h) ∙ ap (λ l. l ++ k ∷ []) e

pub empty_labels :
    (m : Dict String)
    → keys m ≡ start
    → keys (
        insert "path" "" (
          insert "source_name" "" (
            insert "ref" ""
              (insert "url" "" (insert "revision" "" (insert "suspended" "False" m))))))
      ≡ resource_labels
unfolding contain_element_string
empty_labels m e = keys-insert_new "path" "" _ refl (
    keys-insert_new "source_name" "" _ refl (
      keys-insert_new "ref" "" _ refl (
        keys-insert_new "url" "" _ refl
          (keys-insert_new "revision" "" _ refl (keys-insert_new "suspended" "False" m refl e)))))

pub set :
    (key : String) (o : Option String) (l : Dict String)
    → contain_element_string resource_labels key ≡ true
    → keys l ≡ resource_labels
    → keys (assign_if key o l) ≡ resource_labels
set key o l h q = keys-assign_if key o l h q

pub put :
    (key v : String) (l : Dict String)
    → contain_element_string resource_labels key ≡ true
    → keys l ≡ resource_labels
    → keys (insert key v l) ≡ resource_labels
unfolding assign_if
put key v l h q = keys-assign_if key (some v) l h q

pub either :
    (x y : Dict String) (b : Bool)
    → keys x ≡ resource_labels
    → keys y ≡ resource_labels
    → keys (if b then x else y) ≡ resource_labels
either x y true p q = p
either x y false p q = q

pub filled :
    (url revision artifact source : Option String) (l : Dict String)
    → keys l ≡ resource_labels
    → keys (
        assign_if "url" url (
          assign_if "revision" revision
            (assign_if "revision" artifact (assign_if "source_name" source l))))
      ≡ resource_labels
unfolding contain_element_string
filled url revision artifact source l h =
    set "url" _ _ refl
      (set "revision" _ _ refl (set "revision" _ _ refl (set "source_name" _ _ refl h)))
