-- ===== src/Db/Locks.antt =====
-- The methods of src/db.py on the table `locks`.
pub mod Laws
use no8s_operator.Base.{
  ℕ, ◌+◌, ◌*◌, String, Bool, true, false, ◌&&◌, ◌||◌, Option, none, some, [], ◌∷◌, ◌++◌, ◌==◌,
  if◌then◌else◌, string_eq, ltb, find, any, update_where, delete_where,
}
use no8s_operator.Base.Result.{Action, ok}
use no8s_operator.Db.Rows.{Lock, Database, second}

abbrev pub has_key : String → Lock → Bool
has_key k l = l.resource_key == k

abbrev pub expires : Lock → ℕ
expires l = l.acquired_at + l.lease_duration_seconds * second

-- The `WHERE` clause of the upsert: expired, or held by the caller.
abbrev pub takeable : ℕ → String → Lock → Bool
takeable now holder_id l = ltb (expires l) now || l.holder_id == holder_id

abbrev pub taken : ℕ → String → String → ℕ → Lock
taken now key holder_id lease = record {
  resource_key = key;
  holder_id = holder_id;
  acquired_at = now;
  lease_duration_seconds = lease;
}

abbrev pub lock_of : String → Database → Option Lock
lock_of key db = find (has_key key) db.locks

-- INSERT … ON CONFLICT (resource_key) DO UPDATE … WHERE … RETURNING: whether a row came back.
unfoldable pub acquire_or_renew_lock : ℕ → String → String → ℕ → Action Database Bool
acquire_or_renew_lock now key holder_id lease db = elim (lock_of key db) [
  | none ↦ (ok true, record db { locks = db.locks ++ taken now key holder_id lease ∷ [] })
  | some l ↦
      if takeable now holder_id l
      then (
        ok true,
        record db {
          locks = update_where (has_key key) (λ _. taken now key holder_id lease) db.locks;
        },
      )
      else (ok false, db)
]

abbrev pub held_by : String → String → Lock → Bool
held_by key holder_id l = has_key key l && l.holder_id == holder_id

-- The command tag tells whether a row was deleted.
unfoldable pub release_lock : String → String → Action Database Bool
release_lock key holder_id db = (
  ok (any (held_by key holder_id) db.locks),
  record db { locks = delete_where (held_by key holder_id) db.locks },
)

unfoldable pub get_leader_lock_info : String → Database → Option Lock
get_leader_lock_info key db = lock_of key db
