-- ===== src/Indexes/Creation.antt =====
-- What scripts/db/init-indexes.ts has created when it ends.
use fincart_assissment.Common.{◌≡◌, ◌⊎◌, inl, inr, refl, sym, ap, ◌∙◌, List, [], ◌∷◌, ◌++◌}
use mathlib.Core.Path.{subst}
use fincart_assissment.Common.{true}
use fincart_assissment.Common.Text.{Str, text}
use mathlib.Core.List.{append_assoc, append-nil}
use fincart_assissment.Effects.{Reply, ok, throw, return, ◌>>◌, after, finally}
use fincart_assissment.Effects.Post.{
  Post, returned, thrown, Post-continue, Post-recover, Post-weaken, Post-sure, Post-finally,
  Post-threw, Succeeds,
}
use fincart_assissment.Indexes.{
  CollectionName, processed_events, active_shipments, Index, Has, Database, all_indexes,
  try_create_index, create_all, ensure_indexes, exit_code, init_indexes,
}

-- Some of the items, in their order.
pub data Some : List Index → List Index → Type 0 where
  none_left : Some [] []
  kept : (index : Index) {is ks : List Index} → Some is ks → Some (index ∷ is) (index ∷ ks)
  skipped : (index : Index) {is ks : List Index} → Some is ks → Some (index ∷ is) ks

Has-append_left : (index : Index) (xs ys : List Index) → Has index xs → Has index (xs ++ ys)
Has-append_left index [] ys h = absurd h
Has-append_left index (x ∷ xs) ys (inl same) = inl same
Has-append_left index (x ∷ xs) ys (inr h) = inr (Has-append_left index xs ys h)

Has-append_last : (index : Index) (xs : List Index) → Has index (xs ++ index ∷ [])
Has-append_last index [] = inl refl
Has-append_last index (x ∷ xs) = inr (Has-append_last index xs)

module _ {E : Type 0} (db : Database E) where
  -- MongoDB creates the index whenever it is asked to, or has it already.
  abbrev pub Creatable : Index → Type 0
  Creatable index = (s : db.State) → Succeeds (db.create_index index s)

  -- Each index of the list is there, or MongoDB does not create it, and only indexes of the list were added, in
  -- its order.
  pub record Ensured (indexes : List Index) (s s' : db.State) : Type 0 where
    pub added : List Index
    pub created : db.created s' ≡ db.created s ++ added
    pub chosen : Some indexes added
    pub there :
        (index : Index) → Has index indexes → Has index (db.created s') ⊎ (¬ Creatable index)

  -- What trying to create one index leaves.
  pub record Tried (index : Index) (s u : db.State) : Type 0 where
    pub changed : (db.created u ≡ db.created s) ⊎ (db.created u ≡ db.created s ++ index ∷ [])
    pub there : Has index (db.created u) ⊎ (¬ Creatable index)

  Tried-created :
      (index : Index) (s u : db.State)
      → ((db.created u ≡ db.created s) × Has index (db.created s))
        ⊎ (db.created u ≡ db.created s ++ index ∷ [])
      → Tried index s u
  Tried-created index s u (inl (same, has)) = record {
    changed = inl same;
    there = inl (rw same has);
  }
  Tried-created index s u (inr grown) = record {
    changed = inr grown;
    there = inl (rw grown (Has-append_last index (db.created s)));
  }

  try_create_index-Tried :
      (index : Index) (s : db.State)
      → Post (λ u _. Tried index s u) (λ _ _. ⊥) (try_create_index db index s)
  unfolding try_create_index
  try_create_index-Tried index s =
      Post-recover (λ _. return tt) (Post-threw (db.create_index_has index s))
        (λ u _ h. Tried-created index s u h)
        (λ u _ (changed, bad).
          returned (record { changed = changed; there = inr (λ c. bad (c s)) }))

  Ensured-cons :
      (index : Index) (indexes : List Index) (s u s' : db.State)
      → Tried index s u
      → Ensured indexes u s'
      → Ensured (index ∷ indexes) s s'
  Ensured-cons index indexes s u s' t h = elim t.changed [
    | inl same ↦ record {
      added = h.added;
      created = h.created ∙ ap (λ l. l ++ h.added) same;
      chosen = skipped index h.chosen;
      there = there;
    }
    | inr grown ↦ record {
      added = index ∷ h.added;
      created =
          h.created
          ∙ (ap (λ l. l ++ h.added) grown ∙ append_assoc (db.created s) (index ∷ []) h.added);
      chosen = kept index h.chosen;
      there = there;
    }
  ]
    where
      there : (i : Index) → Has i (index ∷ indexes) → Has i (db.created s') ⊎ (¬ Creatable i)
      there i (inr later) = h.there i later
      there i (inl same) =
          subst (λ j. Has j (db.created s') ⊎ (¬ Creatable j)) same
            (elim t.there [
              | inl has ↦ inl (rw h.created (Has-append_left index (db.created u) h.added has))
              | inr bad ↦ inr bad
            ])

  create_all-Ensured :
      (indexes : List Index) (s : db.State)
      → Post (λ s' _. Ensured indexes s s') (λ _ _. ⊥) (create_all db indexes s)
  unfolding create_all
  create_all-Ensured [] s = returned (record {
    added = [];
    created = sym (append-nil (db.created s));
    chosen = none_left;
    there = λ i has. absurd has;
  })
  create_all-Ensured (index ∷ indexes) s =
      Post-continue (λ _. create_all db indexes) (try_create_index-Tried index s)
        (λ u _ t.
          Post-weaken (create_all-Ensured indexes u)
            (λ s' _ rest. Ensured-cons index indexes s u s' t rest) (λ _ _ h. h))
        (λ _ _ h. absurd h)

  Ensured-same :
      (indexes : List Index) (s u s' v : db.State)
      → db.created u ≡ db.created s
      → Ensured indexes u s'
      → db.created v ≡ db.created s'
      → Ensured indexes s v
  Ensured-same indexes s u s' v before h then = record {
    added = h.added;
    created = then ∙ (h.created ∙ ap (λ l. l ++ h.added) before);
    chosen = h.chosen;
    there = λ i has. elim (h.there i has) [ inl is ↦ inl (rw then is) | inr bad ↦ inr bad ];
  }

  -- The body of the `try` statement.
  all_created :
      (s : db.State)
      → Succeeds (db.connect s)
      → Post
          (λ u _. Ensured all_indexes s u)
          (λ _ _. ⊥)
          ((db.connect >> create_all db all_indexes) s)
  all_created s connected =
      Post-continue (λ _. create_all db all_indexes) (Post-sure (db.connect_keeps s) connected)
        (λ u _ same.
          Post-weaken (create_all-Ensured all_indexes u)
            (λ s' _ h. Ensured-same all_indexes s u s' s' same h refl) (λ _ _ h. h))
        (λ _ _ h. absurd h)

  -- An index that lets a collection hold only one document with a value of a field.
  abbrev pub Keys : CollectionName → Str → Index → Type 0
  Keys collection field index =
      (index.collection ≡ collection) × (index.keys ≡ field ∷ []) × (index.unique ≡ true)

  abbrev pub IsKeyed : CollectionName → Str → db.State → Type 0
  IsKeyed collection field s =
      (index : Index) × Has index (db.created s) × Keys collection field index

  -- MongoDB creates all that the list has of them.
  abbrev pub AllowsKeys : CollectionName → Str → Type 0
  AllowsKeys collection field = (index : Index) → Keys collection field index → Creatable index

  -- What the script leaves.
  abbrev pub Initialized : db.State → db.State → Type 0
  Initialized s s' =
      Ensured all_indexes s s'
      × (IsKeyed processed_events (text "idempotencyKey") s'
          ⊎ (¬ AllowsKeys processed_events (text "idempotencyKey")))
      × (IsKeyed active_shipments (text "shipmentId") s'
          ⊎ (¬ AllowsKeys active_shipments (text "shipmentId")))

  keyed :
      (collection : CollectionName) (field : Str) (index : Index) (s' : db.State)
      → Keys collection field index
      → Has index (db.created s') ⊎ (¬ Creatable index)
      → IsKeyed collection field s' ⊎ (¬ AllowsKeys collection field)
  keyed collection field index s' k (inl has) = inl (index, has, k)
  keyed collection field index s' k (inr bad) = inr (λ allows. bad (allows index k))

  Ensured-Initialized : (s s' : db.State) → Ensured all_indexes s s' → Initialized s s'
  Ensured-Initialized s s' h = (
    h,
    keyed processed_events (text "idempotencyKey") _ s' (refl, refl, refl) (h.there _ (inl refl)),
    keyed active_shipments (text "shipmentId") _ s' (refl, refl, refl)
        (h.there _ (inr (inr (inr (inl refl))))),
  )

  -- Once MongoDB is connected to, then, whatever indexes there were and whatever happens to the others,
  -- each index of the script's list is there at the end, or MongoDB does not create it whenever it is
  -- asked to, and only indexes of the list were added, in its order. Among those there are a unique index
  -- on the idempotency key of the processed events and one on the id of the shipments, unless MongoDB
  -- does not create such indexes. That holds also when the connection cannot be closed.
  pub ensure_indexes-creates :
      (s : db.State)
      → Succeeds (db.connect s)
      → Post (λ s' _. Initialized s s') (λ s' _. Initialized s s') (ensure_indexes db s)
  unfolding ensure_indexes
  ensure_indexes-creates s connected =
      Post-finally db.close (all_created s connected)
        (λ u _ h.
          Post-weaken (db.close_keeps u)
            (λ v _ e. Ensured-Initialized s v (Ensured-same all_indexes s s u v refl h e))
            (λ v _ e. Ensured-Initialized s v (Ensured-same all_indexes s s u v refl h e)))
        (λ _ _ h. absurd h)

  exits_well :
      (q : db.State × Reply E (Unit {0}))
      → Post (λ _ _. Unit {0}) (λ _ _. ⊥) q
      → ((u : db.State) → Succeeds (db.close u))
      → exit_code db (finally db.close q) ≡ 0
  exits_well q (returned {w} {a} _) closing = exit_after (db.close w) a (closing w)
    where
      exit_after :
          (r : db.State × Reply E (Unit {0})) (a : Unit {0})
          → Succeeds r
          → exit_code db (after (ok a) r) ≡ 0
      exit_after (w, ok _) a h = refl
      exit_after (w, throw e) a h = absurd h
  exits_well q (thrown h) closing = absurd h

  -- Once MongoDB is connected to, the script reports success when the connection can be closed, even
  -- if MongoDB refuses every index.
  pub init_indexes-reports :
      (s : db.State)
      → Succeeds (db.connect s)
      → ((u : db.State) → Succeeds (db.close u))
      → init_indexes db s ≡ 0
  unfolding init_indexes ensure_indexes
  init_indexes-reports s connected closing =
      exits_well ((db.connect >> create_all db all_indexes) s)
        (Post-weaken (all_created s connected) (λ _ _ _. tt) (λ _ _ h. h)) closing
