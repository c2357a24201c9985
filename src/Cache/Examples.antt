-- ===== src/Cache/Examples.antt =====
-- A load of a value that is not cached, with the lock.
use xkit.Prelude.{ℕ, ◌≡◌, ◌==◌, refl, true, false, none, some, [], ◌∷◌, pos, negsuc, ok, err}
use xkit.Cache.{
  Bytes, key, field, returned, read, called, set_key, set_field, set_ttl, asked_ttl, locked,
  unlocked, leads, Oracle, Options,
}
use xkit.Cache.Loader.{load, load_hash}
use xkit.Cache.HashKey.{hash_field_key, hash_field_key-injective}
use xkit.Cache.Loads.{CallsOnce, Runs, load-once, load-Runs}

-- 0 stands for `redis.Nil`. Nothing is ever cached, and no write fails.
abbrev missing : Oracle ℕ
missing = record {
  reads = λ log place. err 0;
  loads = λ log. returned (7 ∷ []);
  writes = λ log. none;
  ttls = λ log k. ok (pos 0);
  locks = λ external log k. ok true;
  flights = λ log k. leads;
  ctx_err = λ log. none;
  cut_short = λ log. none;
  scaled = λ log ttl. some ttl;
  jitter = λ log n. pos 0;
  is_nil = λ x. x == 0;
  is_lifecycle = λ x. false;
  is_context = λ x. false;
  is_lock_ttl = λ x. false;
  is_config = λ x. false;
}

abbrev guarded : Options
guarded = record {
  enable_singleflight = true;
  enable_distributed_lock = true;
  distributed_lock_ttl = pos 1000;
  lock_key_prefix = [];
  has_external_lock = false;
  max_retry_attempts = pos 3;
  has_ttl_jitter = false;
  hash_ttl_refresh = true;
  has_hook = true;
}

load-cold : load missing guarded true true (97 ∷ []) true (pos 60) [] ≡ (
  ok (7 ∷ []),
  unlocked (97 ∷ [])
      ∷ set_key (97 ∷ []) (7 ∷ []) (pos 60)
      ∷ called (returned (7 ∷ []))
      ∷ read (key (97 ∷ [])) (err 0)
      ∷ locked (97 ∷ [])
      ∷ read (key (97 ∷ [])) (err 0)
      ∷ read (key (97 ∷ [])) (err 0)
      ∷ [],
)
unfolding load
load-cold = refl

-- A hash without a time to live is given one after its field is written.
load_hash-endless :
    load_hash
      (record missing { ttls = λ log k. ok (negsuc 0) })
      (record guarded {
        enable_singleflight = false;
        enable_distributed_lock = false;
        hash_ttl_refresh = false;
      })
      true
      true
      (97 ∷ [])
      (98 ∷ [])
      true
      (pos 60)
      []
    ≡ (
      ok (7 ∷ []),
      set_ttl (97 ∷ []) (pos 60)
          ∷ asked_ttl (97 ∷ []) (ok (negsuc 0))
          ∷ set_field (97 ∷ []) (98 ∷ []) (7 ∷ []) none
          ∷ called (returned (7 ∷ []))
          ∷ read (field (97 ∷ []) (98 ∷ [])) (err 0)
          ∷ read (field (97 ∷ []) (98 ∷ [])) (err 0)
          ∷ [],
    )
unfolding load_hash
load_hash-endless = refl

load-once_example :
    CallsOnce missing guarded
      (key (97 ∷ []))
      (pos 60)
      []
      (load missing guarded true true (97 ∷ []) true (pos 60) []).1
    × CallsOnce missing guarded
        (field (97 ∷ []) (98 ∷ []))
        (pos 60)
        []
        (load_hash missing guarded true true (97 ∷ []) (98 ∷ []) true (pos 60) []).1
load-once_example = load-once missing guarded true true true (pos 60) (97 ∷ []) (98 ∷ []) []

load-Runs_example :
    Runs missing guarded
      (key (97 ∷ []))
      (pos 60)
      []
      (load missing guarded true true (97 ∷ []) true (pos 60) [])
    × Runs missing guarded
        (field (97 ∷ []) (98 ∷ []))
        (pos 60)
        []
        (load_hash missing guarded true true (97 ∷ []) (98 ∷ []) true (pos 60) [])
load-Runs_example = load-Runs missing guarded true true true (pos 60) (97 ∷ []) (98 ∷ []) []

user_key : hash_field_key (117 ∷ []) (97 ∷ 58 ∷ []) ≡ 49 ∷ 58 ∷ 117 ∷ 58 ∷ 97 ∷ 58 ∷ []
unfolding hash_field_key
user_key = refl

hash_field_key-injective_example :
    (◌≡◌ {A = Bytes} (117 ∷ []) (117 ∷ [])) × (◌≡◌ {A = Bytes} (97 ∷ 58 ∷ []) (97 ∷ 58 ∷ []))
hash_field_key-injective_example =
    hash_field_key-injective (117 ∷ []) (97 ∷ 58 ∷ []) (117 ∷ []) (97 ∷ 58 ∷ []) refl
