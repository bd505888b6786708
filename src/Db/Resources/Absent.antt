-- ===== src/Db/Resources/Absent.antt =====
-- What an update, an insert and a delete in src/db.py do to the rows that meet a condition: where there
-- was none, there is none afterwards.
use no8s_operator.Base.{
  ◌≡◌, refl, Bool, true, false, none, List, [], ◌∷◌, ◌++◌, arith, find, delete_where, update_where,
}
use no8s_operator.Db.Rows.{Resource}

module _ (q : Resource → Bool) where
  pub absent-update_where :
      (p : Resource → Bool) (g : Resource → Resource) (rs : List Resource)
      → ((r : Resource) → p r ≡ true → q (g r) ≡ true → q r ≡ true)
      → find q rs ≡ none
      → find q (update_where p g rs) ≡ none
  absent-update_where p g [] keep h = refl
  absent-update_where p g (r ∷ rs) keep h = ground (arith, keep r, absent-update_where p g rs keep)

  pub absent-insert :
      (new : Resource) (rs : List Resource)
      → q new ≡ false
      → find q rs ≡ none
      → find q (rs ++ new ∷ []) ≡ none
  absent-insert new [] other h = ground arith
  absent-insert new (r ∷ rs) other h = ground (arith, absent-insert new rs other)

  pub absent-delete_where :
      (p : Resource → Bool) (rs : List Resource)
      → find q rs ≡ none
      → find q (delete_where p rs) ≡ none
  absent-delete_where p [] h = refl
  absent-delete_where p (r ∷ rs) h = ground (arith, absent-delete_where p rs)
