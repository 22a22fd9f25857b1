-- ===== src/Threads/Identities.antt =====
-- `Database` of db/repositories.py: principals and their external identities.
use managed_agent_web_slack.Common.{
  ◌==◌, Option, none, some, [], ◌∷◌, ◌++◌, Bool, ◌&&◌, if◌then◌else◌, any_row, find_row,
  update_where,
}
use managed_agent_web_slack.Store.{Key}
use managed_agent_web_slack.Threads.{
  ExternalIdentity, ThreadDb, Outcome, ok, err, unique_violation, has_principal,
}

-- `ON CONFLICT (principal_id) DO NOTHING`; the display name is not read back.
unfoldable pub ensure_principal : Key → ThreadDb → ThreadDb
ensure_principal id db =
    if has_principal id db then db else record db { principals = db.principals ++ id ∷ [] }

abbrev pub of_user : Key → Key → Key → ExternalIdentity → Bool
of_user provider tenant_id user_id i =
    i.provider == provider && (i.tenant_id == tenant_id && i.external_user_id == user_id)

-- `ON CONFLICT (provider, tenant_id, external_user_id) DO UPDATE SET principal_id`; `fresh` is the
-- UUID of a new row.
unfoldable pub map_external_identity :
    Key → Key → Key → Key → Key → ThreadDb → Outcome (Unit {0}) × ThreadDb
map_external_identity fresh principal_id provider tenant_id user_id db =
    if any_row (of_user provider tenant_id user_id) db.identities
    then (
      ok tt,
      record db {
        identities =
            update_where (of_user provider tenant_id user_id)
              (λ i. record i { principal_id = principal_id }) db.identities;
      },
    )
    else (if any_row (λ i. i.identity_id == fresh) db.identities
        then (err unique_violation, db)
        else (
          ok tt,
          record db {
            identities =
                db.identities
                ++ record {
                  identity_id = fresh;
                  principal_id = principal_id;
                  provider = provider;
                  tenant_id = tenant_id;
                  external_user_id = user_id;
                }
                  ∷ [];
          },
        ))

unfoldable pub resolve_external_identity : Key → Key → Key → ThreadDb → Option Key
resolve_external_identity provider tenant_id user_id db =
    elim (find_row (of_user provider tenant_id user_id) db.identities) [
      | none ↦ none
      | some i ↦ some i.principal_id
    ]
