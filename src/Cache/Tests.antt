-- ===== src/Cache/Tests.antt =====
-- The theorems on the caching client, over a client that knows one Secret and a clock.
use plugin_barman_cloud.Base.{
  ℕ, ◌+◌, ◌≤◌, ◌≡◌, ◌⊎◌, refl, subst, ==_refl, string_eq, Bool, true, List, [], ◌∷◌, String, arith,
  if◌then◌else◌,
}
use plugin_barman_cloud.Base.Exec.{Result, ok}
use plugin_barman_cloud.Api.{NamespacedName}
use plugin_barman_cloud.Cache.{
  Kind, secret, Object, Cache, BaseClient, is_for, is_object_cached, forget, get, update, delete,
  patch,
}
use plugin_barman_cloud.Cache.Unique.{
  IsUnique, AnswersKey, entries_for, get-IsUnique, forget-IsUnique, same_kind_refl,
}
use plugin_barman_cloud.Cache.Spec.{
  nothing, Call, getting, updating, changing, got, wrote, changed, client_run, spec_run,
}
use plugin_barman_cloud.Cache.Runs.{Refines, client_run-Refines, empty-Refines}
use plugin_barman_cloud.Cache.Fresh.{get-write, get-IsCurrent, IsCurrent}

-- A world is its clock. Any object that is asked for is there, with the time as its content.
abbrev clock_client : BaseClient ℕ String ℕ
clock_client = record {
  get = λ kind key w.
      (ok (record { kind = kind; namespace = key.namespace; name = key.name; content = w }), w);
  update = λ o w. (ok tt, w + 1);
  delete = λ o w. (ok tt, w + 1);
  patch = λ o w. (ok tt, w + 1);
  now = λ w. w;
}

abbrev credentials : Object ℕ
credentials = record { kind = secret; namespace = "default"; name = "aws"; content = 5 }

abbrev credentials_key : NamespacedName
credentials_key = record { namespace = "default"; name = "aws" }

-- The Secret, fetched at 5.
abbrev one_entry : Cache ℕ
one_entry = (record { entry = credentials; fetch_unix_time = 5; ttl_seconds = 10 }) ∷ []

one_entry-IsUnique : IsUnique one_entry
unfolding entries_for
one_entry-IsUnique = λ kind key. at_most_one (is_for kind key credentials)
  where
    at_most_one : (b : Bool) → (if b then 1 else 0) + 0 ≤ 1
    at_most_one b = ground arith

abbrev object_of : Kind → NamespacedName → ℕ → Object ℕ
object_of kind key w = record {
  kind = kind;
  namespace = key.namespace;
  name = key.name;
  content = w;
}

is_for-object_of :
    (kind : Kind) (key : NamespacedName) (w : ℕ) → is_for kind key (object_of kind key w) ≡ true
is_for-object_of kind key w = cc (==_refl key.namespace, ==_refl key.name, same_kind_refl kind)

clock_client-AnswersKey : AnswersKey clock_client
clock_client-AnswersKey = record { answers = answered }
  where
    the_object : {a b : Object ℕ} → ◌≡◌ {A = Result String (Object ℕ)} (ok a) (ok b) → a ≡ b
    the_object h = cc

    answered :
        (kind : Kind) (key : NamespacedName) (w : ℕ) (o : Object ℕ)
        → (clock_client.get kind key w).0 ≡ ok o
        → is_for kind key o ≡ true
    answered kind key w o h =
        subst (λ (p : Object ℕ). is_for kind key p ≡ true) (the_object h)
          (is_for-object_of kind key w)

get-IsUnique_example : IsUnique (get clock_client secret credentials_key (one_entry, 30)).1.0
get-IsUnique_example =
    get-IsUnique clock_client clock_client-AnswersKey secret credentials_key one_entry 30
      one_entry-IsUnique

forget-IsUnique_example : IsUnique (forget credentials one_entry)
forget-IsUnique_example = forget-IsUnique credentials one_entry one_entry-IsUnique

-- At 7 the entry is current, but it is not what a `Get` after an `Update` answers.
get-write_example :
    ((get clock_client secret credentials_key (update clock_client credentials (one_entry, 7)).1).0
      ≡ (clock_client.get secret credentials_key 8).0)
    × ((get clock_client secret credentials_key
          (delete clock_client credentials (one_entry, 7)).1).0
        ≡ (clock_client.get secret credentials_key 8).0)
    × ((get clock_client secret credentials_key (patch clock_client credentials (one_entry, 7)).1).0
        ≡ (clock_client.get secret credentials_key 8).0)
unfolding is_object_cached
get-write_example = get-write clock_client credentials one_entry 7 one_entry-IsUnique refl

get-IsCurrent_example :
    (((get clock_client secret credentials_key (one_entry, 7)).0
        ≡ (clock_client.get secret credentials_key 7).0)
      × ((get clock_client secret credentials_key (one_entry, 7)).1.1
          ≡ (clock_client.get secret credentials_key 7).1))
    ⊎ ((o : Object ℕ) × (get clock_client secret credentials_key (one_entry, 7)
          ≡ (ok o, (one_entry, 7)))
        × IsCurrent clock_client 7 secret credentials_key one_entry o)
unfolding is_object_cached
get-IsCurrent_example = get-IsCurrent clock_client secret credentials_key one_entry 7 refl

-- A client that fetches a Secret, is served from the cache, writes it, and fetches it anew.
abbrev calls : List (Call ℕ ℕ)
calls =
    getting secret credentials_key
    ∷ changing (λ w. w + 3)
    ∷ getting secret credentials_key
    ∷ updating credentials
    ∷ getting secret credentials_key
    ∷ []

client_runs :
    (client_run clock_client calls ([], 5)).0
    ≡ got (ok (object_of secret credentials_key 5))
      ∷ changed
      ∷ got (ok (object_of secret credentials_key 5))
      ∷ wrote (ok tt)
      ∷ got (ok (object_of secret credentials_key 9))
      ∷ []
unfolding client_run
client_runs = refl

client_run-Refines_example :
    ((client_run clock_client calls ([], 5)).0 ≡ (spec_run clock_client calls (nothing, 5)).0)
    × Refines clock_client clock_client-AnswersKey
        (client_run clock_client calls ([], 5)).1
        (spec_run clock_client calls (nothing, 5)).1
client_run-Refines_example =
    client_run-Refines clock_client clock_client-AnswersKey calls ([], 5) (nothing, 5)
      (empty-Refines clock_client clock_client-AnswersKey 5)
