-- ===== src/Databases/Settled.antt =====
-- The effects of the database browser come to rest.
use mathlib.Core.Option
use vps_monitor.Common.{
  ℕ, Text, text_eq, text_eq_refl, Option, none, some, List, [], ◌∷◌, ◌++◌, true, false,
  if◌then◌else◌, get_elem?, find, or_else, ◌≡◌, refl, sym, ap, ◌∙◌, arith, ◌⊎◌, inl, inr,
  Option-cases,
}
use vps_monitor.Common.Sets.{has}
use vps_monitor.Databases.{
  DatabaseInstance, DatabaseTable, instance_key, table_key, Cache, Selection, chosen,
  selected_instance, databases_at, tables_at, databases, tables, selected_table, key_set,
  instance_effect, database_effect, table_effect, render,
}

text_eq-tail : (s t : Text) (c : ℕ) → text_eq (s ++ c ∷ t) [] ≡ false
unfolding text_eq
text_eq-tail [] t c = refl
text_eq-tail (d ∷ s) t c = refl

-- The key that an effect leaves.
abbrev kept : Option Text → Text → Text
kept o k = or_else (key_set o k) k

module _ {ℓ} {A : Type ℓ} (key : A → Text) (filled : (x : A) → text_eq (key x) [] ≡ false) where
  find-nil : (xs : List A) → find (λ x. text_eq (key x) []) xs ≡ none
  find-nil [] = refl
  find-nil (x ∷ xs) = rw (filled x, find-nil xs) refl

  chosen-nil : (xs : List A) → chosen key xs [] ≡ get_elem? xs 0
  chosen-nil xs = ground (arith, find-nil xs)

  chosen-first : (x : A) (xs : List A) → chosen key (x ∷ xs) (key x) ≡ some x
  chosen-first x xs = ground (arith, text_eq_refl (key x))

  chosen-some : (x : A) (xs : List A) (k : Text) → (y : A) × (chosen key (x ∷ xs) k ≡ some y)
  chosen-some x xs k = elim (Option-cases (find (λ y. text_eq (key y) k) (x ∷ xs))) [
    | inl e ↦ (x, rw (chosen, e) refl)
    | inr (y, e) ↦ (y, rw (chosen, e) refl)
  ]

  abbrev next : List A → Text → Text
  next xs k = kept (Option.map key (chosen key xs k)) k

  next-nil : (x : A) (xs : List A) → next (x ∷ xs) [] ≡ key x
  next-nil x xs = ap (λ o. kept (Option.map key o) []) (chosen-nil (x ∷ xs))

  kept-filled : (y : A) (k : Text) → text_eq k [] ≡ false → kept (some (key y)) k ≡ k
  unfolding text_eq
  kept-filled y [] h = ground (arith, h)
  kept-filled y (c ∷ k) h = refl

  next-filled : (x : A) (xs : List A) (k : Text) → text_eq k [] ≡ false → next (x ∷ xs) k ≡ k
  next-filled x xs k h =
      let (y, e) = chosen-some x xs k in ap (λ o. kept (Option.map key o) k) e ∙ kept-filled y k h

  -- Where a key is chosen by, the key that is left chooses the same, and is left again.
  chosen-next : (xs : List A) (k : Text) → chosen key xs (next xs k) ≡ chosen key xs k
  chosen-next [] [] = refl
  chosen-next [] (c ∷ k) = refl
  chosen-next (x ∷ xs) [] =
      ap (chosen key (x ∷ xs)) (next-nil x xs) ∙ chosen-first x xs ∙ sym (chosen-nil (x ∷ xs))
  chosen-next (x ∷ xs) (c ∷ k) =
      ap (chosen key (x ∷ xs)) (next-filled x xs (c ∷ k) (text_eq-tail [] k c))

  next_idem : (xs : List A) (k : Text) → next xs (next xs k) ≡ next xs k
  next_idem [] [] = refl
  next_idem [] (c ∷ k) = refl
  next_idem (x ∷ xs) [] =
      ap (next (x ∷ xs)) (next-nil x xs) ∙ next-filled x xs (key x) (filled x) ∙ sym (next-nil x xs)
  next_idem (x ∷ xs) (c ∷ k) = ap (next (x ∷ xs)) (next-filled x xs (c ∷ k) (text_eq-tail [] k c))

instance_key-filled : (i : DatabaseInstance) → text_eq (instance_key i) [] ≡ false
unfolding instance_key
instance_key-filled i = text_eq-tail i.host i.id 58

table_key-filled : (t : DatabaseTable) → text_eq (table_key t) [] ≡ false
unfolding table_key
table_key-filled t = text_eq-tail (or_else t.schema []) t.name 46

module _ (cache : Cache) where
  -- The fields that a render leaves.
  abbrev database_kept : List Text → Text → Text
  database_kept dbs db = if has db dbs then db else or_else (get_elem? dbs 0) []

  instance_lem :
      (s : Selection)
      → (render cache s).selected_instance_key
        ≡ next instance_key instance_key-filled cache.instances s.selected_instance_key
  unfolding render instance_effect database_effect table_effect selected_instance
  instance_lem s = ground arith

  database_lem :
      (s : Selection)
      → (render cache s).selected_database ≡ database_kept (databases cache s) s.selected_database
  unfolding render database_effect table_effect instance_effect
  database_lem s = ground arith

  table_lem :
      (s : Selection)
      → (render cache s).selected_table_key
        ≡ or_else
            (key_set (Option.map table_key (selected_table cache s)) s.selected_table_key)
            (if has s.selected_database (databases cache s) then s.selected_table_key else [])
  unfolding render database_effect table_effect instance_effect
  table_lem s = ground arith

  -- A loaded database is selected, or there is none.
  abbrev pub IsFound : Selection → Type 0
  IsFound s =
      (has s.selected_database (databases cache s) ≡ true)
      ⊎ ((databases cache s ≡ []) × (s.selected_database ≡ []))

  selected_instance-render :
      (s : Selection) → selected_instance cache (render cache s) ≡ selected_instance cache s
  unfolding selected_instance
  selected_instance-render s =
      ap (chosen instance_key cache.instances) (instance_lem s)
      ∙ chosen-next instance_key instance_key-filled cache.instances s.selected_instance_key

  databases-render : (s : Selection) → databases cache (render cache s) ≡ databases cache s
  unfolding databases
  databases-render s = ap (databases_at cache) (selected_instance-render s)

  database_kept_found :
      (dbs : List Text) (db : Text)
      → (has (database_kept dbs db) dbs ≡ true) ⊎ ((dbs ≡ []) × (database_kept dbs db ≡ []))
  unfolding has
  database_kept_found [] db = inr (refl, refl)
  database_kept_found (d ∷ dbs) db = ground (arith, text_eq_refl d)

  render-IsFound : (s : Selection) → IsFound (render cache s)
  unfolding has databases
  render-IsFound s =
      rw (database_lem s, databases-render s)
        (database_kept_found (databases cache s) s.selected_database)

  database_rests :
      (s : Selection) → IsFound s → (render cache s).selected_database ≡ s.selected_database
  unfolding has
  database_rests s (inl h) = database_lem s ∙ ground (arith, h)
  database_rests s (inr (e, n)) = database_lem s ∙ rw (e, n) refl

  none_at : (o : Option DatabaseInstance) → tables_at cache o [] ≡ []
  none_at none = refl
  none_at (some i) = refl

  emptied : (k : Text) → or_else (key_set none k) [] ≡ next table_key table_key-filled [] k
  emptied [] = refl
  emptied (c ∷ k) = refl

  no_tables : (s : Selection) → s.selected_database ≡ [] → tables cache s ≡ []
  unfolding tables
  no_tables s n = rw n (none_at (selected_instance cache s))

  table_rests :
      (s : Selection)
      → IsFound s
      → (render cache s).selected_table_key
        ≡ next table_key table_key-filled (tables cache s) s.selected_table_key
  unfolding has selected_table
  table_rests s (inl h) = table_lem s ∙ ground (arith, h)
  table_rests s (inr (e, n)) = table_lem s ∙ rw (e, no_tables s n) (emptied s.selected_table_key)

  Selection-ext :
      (s t : Selection)
      → s.selected_instance_key ≡ t.selected_instance_key
      → s.selected_database ≡ t.selected_database
      → s.selected_table_key ≡ t.selected_table_key
      → s ≡ t
  Selection-ext s t a b c i = record {
    selected_instance_key = a i;
    selected_database = b i;
    selected_table_key = c i;
  }

  tables-render : (s : Selection) → IsFound s → tables cache (render cache s) ≡ tables cache s
  unfolding tables
  tables-render s h = rw (selected_instance-render s, database_rests s h) refl

  rest_lem : (s : Selection) → IsFound s → render cache (render cache s) ≡ render cache s
  rest_lem s h =
      let t = render cache s in
      let again = render-IsFound s in
      Selection-ext (render cache t) t
        (instance_lem t
          ∙ ap (next instance_key instance_key-filled cache.instances) (instance_lem s)
          ∙ next_idem instance_key instance_key-filled cache.instances s.selected_instance_key
          ∙ sym (instance_lem s))
        (database_rests t again)
        (table_rests t again
          ∙ ap (λ ts. next table_key table_key-filled ts t.selected_table_key) (tables-render s h)
          ∙ ap (next table_key table_key-filled (tables cache s)) (table_rests s h)
          ∙ next_idem table_key table_key-filled (tables cache s) s.selected_table_key
          ∙ sym (table_rests s h))

  -- From any selection, with what the queries have loaded, the effects come to rest after two renders:
  -- a third changes nothing. The instance that is shown is then still the one shown at first, and the
  -- selected database is one that the instance has, or none where none is loaded.
  pub settled :
      (s : Selection)
      → (render cache (render cache (render cache s)) ≡ render cache (render cache s))
        × ((selected_instance cache (render cache (render cache s)) ≡ selected_instance cache s)
            × IsFound (render cache (render cache s)))
  settled s =
      let t = render cache s in
      (
        rest_lem t (render-IsFound s),
        (selected_instance-render t ∙ selected_instance-render s, render-IsFound t),
      )
