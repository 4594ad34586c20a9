-- ===== src/Redis/Keys.antt =====
-- The cache over a server that keeps keys, and the defaults of a new cache.
use notes_microservices.Prelude.{
  ℕ, ◌<◌, ◌≡◌, ◌∙◌, ap, ℤ, pos, negsuc, String, true, false, Option, none, some, is_nonpos, arith,
  inl, inr, Option-cases, Bool-cases,
}
use notes_microservices.Failure.{Err, is_foreign, redis_nil}
use notes_microservices.Action.{ok, err, context_of}
use notes_microservices.App.Gateway.Profile.Kept.{IsMap, put, shown}
use notes_microservices.Redis.{Client, RedisCache, positive_or, get, set, cache}

-- What a server that is up does: GET returns the value, or redis.Nil for a missing key; SET with a
-- positive time to live and DEL change that key alone. `view s` are the values in the state s.
pub record IsServer {S : Type 0} (view : S → String → Option String) (client : Client S)
    : Type 0 where
  pub found :
      (key value : String) (s : S) → view s key ≡ some value → (client.get key s).0 ≡ ok value
  pub absent :
      (key : String) (s : S)
      → view s key ≡ none
      → (e : Err) × ((client.get key s).0 ≡ err e) × (is_foreign e redis_nil ≡ true)
  pub get-view : (key k : String) (s : S) → view ((client.get key s).1) k ≡ view s k
  pub set-result :
      (key value : String) (n : ℕ) (s : S) → 0 < n → (client.set key value (pos n) s).0 ≡ ok tt
  pub set-view :
      (key value : String) (n : ℕ) (s : S) (k : String)
      → 0 < n
      → view ((client.set key value (pos n) s).1) k ≡ put key (some value) (view s) k
  pub del-result : (key : String) (s : S) → (client.del key s).0 ≡ ok tt
  pub del-view :
      (key : String) (s : S) (k : String) → view ((client.del key s).1) k ≡ put key none (view s) k

positive_or-pos :
    (default ttl : ℤ)
    → is_nonpos default ≡ false
    → (n : ℕ) × (positive_or default ttl ≡ pos n) × (0 < n)
positive_or-pos (pos d) (pos t) h = elim (Bool-cases (is_nonpos (pos t))) [
  | inl none_given ↦ (d, ground arith, ground arith)
  | inr given ↦ (t, ground arith, ground arith)
]
positive_or-pos (pos d) (negsuc t) h = (d, ground arith, ground arith)
positive_or-pos (negsuc d) t h = ground arith

module _ {S : Type 0} (view : S → String → Option String) (c : RedisCache S) where
  get-shown :
      IsServer view c.client → (key : String) (s : S) → (get c key s).0 ≡ ok (shown (view s key))
  unfolding get
  get-shown server key s = elim (Option-cases (view s key)) [
    | inl missing ↦ (let (e, refused, nil) = server.absent key s missing in ground arith)
    | inr (value, there) ↦ (let read = server.found key value s there in ground arith)
  ]

  -- Over a server that is up, the cache is a map from keys to values in which a missing key reads as
  -- "" and no time to live is refused, if its default time to live is positive.
  pub cache-IsMap : IsServer view c.client → is_nonpos c.default_ttl ≡ false → IsMap view (cache c)
  unfolding cache get set
  cache-IsMap server positive = record {
    get-result = λ key s. get-shown server key s;
    get-view = λ key k s. server.get-view key k s;
    set-result = λ key value ttl s.
        let (n, given, more) = positive_or-pos c.default_ttl ttl positive in
        let done = server.set-result key value n s more in ground arith;
    set-view = λ key value ttl s k.
        let (n, given, more) = positive_or-pos c.default_ttl ttl positive in
        ap (λ x. view ((c.client.set key value x s).1) k) given
        ∙ server.set-view key value n s k more;
    delete-result = λ key s. ap (context_of "redis: delete") (server.del-result key s);
    delete-view = λ key s k. server.del-view key s k;
  }
