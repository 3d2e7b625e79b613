-- ===== src/Redis/Demo.antt =====
-- A Redis server and a JSON encoding to run the model on, as concrete functions.
use mini_dynamo.Prelude.{
  ◌≤◌, ◌<◌, ℤ, pos, negsuc, ℕ, suc, zero, ◌+◌, ◌≡◌, inl, inr, refl, ap, sym, ◌∙◌, ite, if_neg, Bool,
  true, false, Option, none, some, List, [], ◌∷◌, ◌++◌, Text, Text_discrete, if◌then◌else◌, ltb,
  length, In, arith, Bool-cases,
}
use mini_dynamo.Models.{BackendInfo}
use mini_dynamo.Redis.{Redis, Json, KvMeta}

-- A key, its value and the time at which it expires.
abbrev pub Entries : Type 0
Entries = List (Text × Text × ℕ)

abbrev pub demo_get : Text → ℕ → Entries → Option Text
demo_get k t [] = none
demo_get k t ((j, v, end) ∷ s) =
    let rest = demo_get k t s in ite (Text_discrete j k) (if ltb t end then some v else none) rest

abbrev pub starts_with : Text → Text → Bool
starts_with [] s = true
starts_with (c ∷ p) [] = false
starts_with (c ∷ p) (d ∷ s) =
    let rest = starts_with p s in if ltb c d then false else if ltb d c then false else rest

abbrev pub demo_scan : Text → Entries → List Text
demo_scan p [] = []
demo_scan p ((j, v, end) ∷ s) =
    let rest = demo_scan p s in if starts_with p j then j ∷ rest else rest

starts : (p s : Text) → starts_with p (p ++ s) ≡ true
starts [] s = refl
starts (c ∷ p) s = ground (arith, starts p s)

pub demo_scan_complete :
    (p rest v : Text) (t : ℕ) (s : Entries)
    → demo_get (p ++ rest) t s ≡ some v
    → In (p ++ rest) (demo_scan p s)
demo_scan_complete p rest v t [] e = cc
demo_scan_complete p rest v t ((j, w, end) ∷ s) e = elim (Text_discrete j (p ++ rest)) [
  | yes k ↦ rw (k, starts p rest) (inl refl)
  | no ne ↦
      (let later =
          demo_scan_complete p rest v t s (sym (if_neg (Text_discrete j (p ++ rest)) ne _ _) ∙ e) in
        elim (Bool-cases (starts_with p j)) [ inl q ↦ rw q (inr later) | inr q ↦ rw q later ])
]

pub demo_live :
    (k v : Text) (ttl now t : ℕ) (s : Entries)
    → now ≤ t
    → t < now + ttl
    → demo_get k t ((k, v, now + ttl) ∷ s) ≡ some v
demo_live k v ttl now t s started live = ground arith

pub demo_expired :
    (k v : Text) (ttl now t : ℕ) (s : Entries)
    → now + ttl ≤ t
    → demo_get k t ((k, v, now + ttl) ∷ s) ≡ none
demo_expired k v ttl now t s over = ground arith

abbrev pub demo_redis : Redis
demo_redis = record {
  Store = Entries;
  get = demo_get;
  set = λ k v ttl now s. (k, v, now + ttl) ∷ s;
  scan = λ p t s. demo_scan p s;
  get-set_live = demo_live;
  get-set_expired = demo_expired;
  get-set_ne = λ k j v ttl now t s ne. if_neg (Text_discrete k j) ne _ _;
  scan_complete = λ p rest v t s. demo_scan_complete p rest v t s;
}

-- Texts with their length before them.
abbrev pub put_text : Text → Text → Text
put_text x rest = length x ∷ x ++ rest

abbrev pub split : ℕ → Text → Text × Text
split zero s = ([], s)
split (suc n) [] = ([], [])
split (suc n) (c ∷ s) = let (x, rest) = split n s in (c ∷ x, rest)

abbrev pub take_text : Text → Text × Text
take_text [] = ([], [])
take_text (n ∷ s) = split n s

split-append : (x rest : Text) → split (length x) (x ++ rest) ≡ (x, rest)
split-append [] rest = refl
split-append (c ∷ x) rest = ap (λ p. (c ∷ p.0, p.1)) (split-append x rest)

abbrev pub take_three : Text → Text × Text × Text × Text
take_three s =
    let (x, s1) = take_text s in
    let (y, s2) = take_text s1 in let (z, s3) = take_text s2 in (x, y, z, s3)

take_three-put :
    (x y z rest : Text) → take_three (put_text x (put_text y (put_text z rest))) ≡ (x, y, z, rest)
take_three-put x y z rest =
    rw
      (
        split-append x (put_text y (put_text z rest)),
        split-append y (put_text z rest),
        split-append z rest,
      )
      refl

abbrev pub put_int : ℤ → Text → Text
put_int (pos n) s = 0 ∷ n ∷ s
put_int (negsuc n) s = 1 ∷ n ∷ s

abbrev pub int_of : ℕ → ℕ → ℤ
int_of zero n = pos n
int_of (suc k) n = negsuc n

abbrev pub read_backend_numbers : Text × Text × Text × Text → Option (BackendInfo ℕ)
read_backend_numbers (n, u, r, q ∷ a ∷ k1 ∷ m1 ∷ k2 ∷ m2 ∷ w ∷ []) = some (record {
  name = n;
  url = u;
  role = r;
  queue_depth = q;
  active_batch = a;
  mem_used_mb = int_of k1 m1;
  mem_total_mb = int_of k2 m2;
  utilization = w;
})
read_backend_numbers (n, u, r, _) = none

abbrev pub read_meta_numbers : Text × Text × Text × Text → Option KvMeta
read_meta_numbers (i, d, b, k1 ∷ m1 ∷ k2 ∷ m2 ∷ t ∷ []) = some (record {
  kv_cache_id = i;
  session_id = d;
  num_tokens = int_of k1 m1;
  size_mb = int_of k2 m2;
  backend = b;
  created_at = t;
})
read_meta_numbers (i, d, b, _) = none

abbrev pub demo_dump : BackendInfo ℕ → Text
demo_dump b = put_text b.name (
    put_text b.url (
      put_text b.role (
        b.queue_depth
        ∷ b.active_batch
        ∷ put_int b.mem_used_mb (put_int b.mem_total_mb (b.utilization ∷ [])))))

abbrev pub demo_dumps : KvMeta → Text
demo_dumps m = put_text m.kv_cache_id (
    put_text m.session_id
      (put_text m.backend (put_int m.num_tokens (put_int m.size_mb (m.created_at ∷ [])))))

backend_numbers :
    (n u r : Text) (q a : ℕ) (x y : ℤ) (w : ℕ)
    → read_backend_numbers (n, u, r, q ∷ a ∷ put_int x (put_int y (w ∷ [])))
      ≡ some (record {
        name = n;
        url = u;
        role = r;
        queue_depth = q;
        active_batch = a;
        mem_used_mb = x;
        mem_total_mb = y;
        utilization = w;
      })
backend_numbers n u r q a (pos x) (pos y) w = refl
backend_numbers n u r q a (pos x) (negsuc y) w = refl
backend_numbers n u r q a (negsuc x) (pos y) w = refl
backend_numbers n u r q a (negsuc x) (negsuc y) w = refl

meta_numbers :
    (i d b : Text) (x y : ℤ) (t : ℕ)
    → read_meta_numbers (i, d, b, put_int x (put_int y (t ∷ [])))
      ≡ some (record {
        kv_cache_id = i;
        session_id = d;
        num_tokens = x;
        size_mb = y;
        backend = b;
        created_at = t;
      })
meta_numbers i d b (pos x) (pos y) t = refl
meta_numbers i d b (pos x) (negsuc y) t = refl
meta_numbers i d b (negsuc x) (pos y) t = refl
meta_numbers i d b (negsuc x) (negsuc y) t = refl

pub demo_validate-dump :
    (b : BackendInfo ℕ) → read_backend_numbers (take_three (demo_dump b)) ≡ some b
demo_validate-dump b =
    ap read_backend_numbers (take_three-put b.name b.url b.role _)
    ∙ backend_numbers b.name b.url b.role b.queue_depth b.active_batch b.mem_used_mb b.mem_total_mb
        b.utilization

pub demo_loads-dumps : (m : KvMeta) → read_meta_numbers (take_three (demo_dumps m)) ≡ some m
demo_loads-dumps m =
    ap read_meta_numbers (take_three-put m.kv_cache_id m.session_id m.backend _)
    ∙ meta_numbers m.kv_cache_id m.session_id m.backend m.num_tokens m.size_mb m.created_at

abbrev pub demo_json : Json ℕ
demo_json = record {
  dump = demo_dump;
  validate = λ s. read_backend_numbers (take_three s);
  dump_nonempty = λ b. refl;
  validate-dump = demo_validate-dump;
  dumps = demo_dumps;
  loads = λ s. read_meta_numbers (take_three s);
  dumps_nonempty = λ m. refl;
  loads-dumps = demo_loads-dumps;
}
