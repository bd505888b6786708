-- ===== src/Api/References.antt =====
-- A resource of src/db.py never loses its type, as long as no type is deleted under a POST of
-- src/plugins/inputs/http/api.py.
use mathlib.Core.Path.{subst}
use no8s_operator.Base.{
  ℕ, ◌≡◌, inl, inr, ◌==◌, arith, String, Option, none, some, List, nat_eq, string_eq, Bool-cases,
}
use no8s_operator.Base.Result.{Result}
use no8s_operator.Json as Values
use no8s_operator.Json.{Fields}
use no8s_operator.Db.Rows.{Webhook, Database}
use no8s_operator.Db.ResourceTypes.{get_resource_type_by_name_version}
use no8s_operator.Db.ResourceTypes.References.{
  References, create_resource_type-References, update_resource_type-References,
  delete_resource_type-References,
}
use no8s_operator.Db.ResourceTypes.Kept.{
  TypeThere, create_resource_type-TypeThere, update_resource_type-TypeThere,
  delete_resource_type-TypeThere,
}
use no8s_operator.Admission.{AdmissionRequest}
use no8s_operator.Api.{HttpInputPlugin}
use no8s_operator.Api.Create.{ResourceCreate}
use no8s_operator.Api.TypedWrites.{PostTyped, check_create_type, write-Keeps}
use no8s_operator.Api.Serving.{
  Accepted, post, put, delete, Serving, set, accept, with_db, write, written, Step, checks_post,
  checks_put, checks_delete, writes, creates_type, updates_type, deletes_type, Reach, here, next,
}

pub record IsServed (s : Serving) : Type 0 where
  pub rows : References s.world.db
  pub posts : (k : ℕ) (a : Accepted) → s.accepted k ≡ some a → PostTyped s.world.db a

same_types-PostTyped :
    (db db' : Database) (a : Accepted)
    → db'.resource_types ≡ db.resource_types
    → PostTyped db a
    → PostTyped db' a
same_types-PostTyped db db' (post resource spec) e h = rw e h
same_types-PostTyped db db' (put i spec plugin_config) e h = tt
same_types-PostTyped db db' (delete i r) e h = tt

-- One accepted request more.
accept-IsServed :
    (k : ℕ) (a : Accepted) (s : Serving)
    → PostTyped s.world.db a
    → IsServed s
    → IsServed (accept k a s)
accept-IsServed k a s t safe = record {
  rows = safe.rows;
  posts = λ j b e. elim (Bool-cases (j == k)) [
    | inl own ↦ let same : a ≡ b = ground (arith, e, own) in subst (PostTyped s.world.db) same t
    | inr other ↦ safe.posts j b (ground (arith, e, other))
  ];
}

written-IsServed :
    (plugin : HttpInputPlugin) (hash : Fields → String) (k : ℕ) (timestamp : String) (now : ℕ)
    (a : Accepted) (s : Serving)
    → s.accepted k ≡ some a
    → IsServed s
    → IsServed (written plugin hash k timestamp now a s)
written-IsServed plugin hash k timestamp now a s e safe =
    let kept = write-Keeps plugin hash timestamp now s.world safe.rows a (safe.posts k a e) in
    record {
      rows = kept.0;
      posts = λ j b q.
          same_types-PostTyped s.world.db (write plugin hash timestamp now a s.world).db b kept.1
            (safe.posts j b (earlier j b q));
    }
  where
    earlier : (j : ℕ) (b : Accepted) → set k none s.accepted j ≡ some b → s.accepted j ≡ some b
    earlier j b q = ground (arith, q)

-- A method on types that keeps those of the accepted POSTs.
types-IsServed :
    (s : Serving) (db : Database)
    → References db
    → ((k : ℕ) (resource : ResourceCreate) (spec : Fields)
        → s.accepted k ≡ some (post resource spec)
        → TypeThere resource.resource_type_name resource.resource_type_version s.world.db
        → TypeThere resource.resource_type_name resource.resource_type_version db)
    → IsServed s
    → IsServed (with_db db s)
types-IsServed s db rows keeps safe = record { rows = rows; posts = go }
  where
    go : (k : ℕ) (a : Accepted) → s.accepted k ≡ some a → PostTyped db a
    go k (post resource spec) e = keeps k resource spec e (safe.posts k (post resource spec) e)
    go k (put i spec plugin_config) e = tt
    go k (delete i r) e = tt

module _ {endpoint : Webhook → AdmissionRequest → Option Values.Value}
    {iter_errors : Fields → Fields → Result (List String)} {plugin : HttpInputPlugin}
    {hash : Fields → String} where
  pub Step-IsServed :
      {s t : Serving} → Step endpoint iter_errors plugin hash s t → IsServed s → IsServed t
  unfolding get_resource_type_by_name_version
  Step-IsServed {s} (checks_post k user resource spec e) safe =
      accept-IsServed k (post resource spec) s
        (check_create_type endpoint iter_errors plugin user resource s.world.registry s.world.db
          spec e)
        safe
  Step-IsServed {s} (checks_put k user i given spec plugin_config e) safe =
      accept-IsServed k (put i spec plugin_config) s tt safe
  Step-IsServed {s} (checks_delete k user i r e) safe = accept-IsServed k (delete i r) s tt safe
  Step-IsServed {s} (writes k timestamp now a e) safe =
      written-IsServed plugin hash k timestamp now a s e safe
  Step-IsServed {s} (creates_type now name version schema description metadata) safe =
      types-IsServed s _
        (create_resource_type-References now name version schema description metadata s.world.db
          safe.rows)
        (λ k r spec e.
          create_resource_type-TypeThere r.resource_type_name r.resource_type_version now name
            version schema description metadata s.world.db)
        safe
  Step-IsServed {s} (updates_type i now schema description status metadata) safe =
      types-IsServed s _
        (update_resource_type-References i now schema description status metadata s.world.db
          safe.rows)
        (λ k r spec e.
          update_resource_type-TypeThere r.resource_type_name r.resource_type_version i now schema
            description status metadata s.world.db)
        safe
  Step-IsServed {s} (deletes_type i alone) safe =
      types-IsServed s _ (delete_resource_type-References i s.world.db safe.rows)
        (λ k r spec e.
          delete_resource_type-TypeThere r.resource_type_name r.resource_type_version i s.world.db
            safe.rows.ids (λ t found. alone k (post r spec) t e found))
        safe

  Reach-IsServed :
      {s t : Serving} → IsServed s → Reach endpoint iter_errors plugin hash s t → IsServed t
  Reach-IsServed safe here = safe
  Reach-IsServed safe (next r step) = Step-IsServed step (Reach-IsServed safe r)

  -- If every resource that is not deleted has its type in the table and no request is under way, that
  -- stays so through any interleaving of the checks and the writes of requests and of the methods on
  -- types, provided that no type is deleted while a POST of that type stands between its checks and
  -- its write, and that the statements of the removal of a type run together.
  pub Reach-References :
      {s t : Serving}
      → References s.world.db
      → ((k : ℕ) → s.accepted k ≡ none)
      → Reach endpoint iter_errors plugin hash s t
      → References t.world.db
  Reach-References rows idle r =
      (Reach-IsServed (record { rows = rows; posts = λ k a e. absurd (ground (arith, idle k, e)) })
        r).rows
