-- ===== src/Examples/Collections.antt =====
-- scripts/db/init-indexes.ts on a MongoDB that holds two events of one key, so that it refuses the
-- unique index of the processed events.
use fincart_assissment.Common.{ℕ, ◌≡◌, ◌⊎◌, inl, inr, refl, Bool, true, false, List, [], ◌∷◌, ◌++◌}
use fincart_assissment.Common.Text.{text, str_eq}
use fincart_assissment.Effects.{Reply, ok, throw}
use fincart_assissment.Effects.Post.{Post, returned, thrown}
use fincart_assissment.Indexes.{Index, Has, Database, ensure_indexes}
use fincart_assissment.Indexes.Creation.{Initialized, ensure_indexes-creates}

abbrev create_if : Bool → Index → List Index → List Index × Reply ℕ (Unit {0})
create_if true index s = (s, throw 11000)
create_if false index s = (s ++ index ∷ [], ok tt)

create_if-adds :
    (b : Bool) (index : Index) (s : List Index)
    → Post
        (λ s' _. ((s' ≡ s) × Has index s) ⊎ (s' ≡ s ++ index ∷ []))
        (λ s' _. (s' ≡ s) ⊎ (s' ≡ s ++ index ∷ []))
        (create_if b index s)
create_if-adds true index s = thrown (inl refl)
create_if-adds false index s = returned (inr refl)

abbrev crowded : Database ℕ
crowded = record {
  State = List Index;
  created = λ s. s;
  connect = λ s. (s, ok tt);
  create_index = λ index. create_if (str_eq index.name (text "ux_idempotency_key")) index;
  close = λ s. (s, ok tt);
  connect_keeps = λ s. returned refl;
  create_index_has =
      λ index s. create_if-adds (str_eq index.name (text "ux_idempotency_key")) index s;
  close_keeps = λ s. returned refl;
}

ensure_indexes-creates_example :
    Post
      (λ s' _. Initialized crowded [] s')
      (λ s' _. Initialized crowded [] s')
      (ensure_indexes crowded [])
ensure_indexes-creates_example = ensure_indexes-creates crowded [] tt
