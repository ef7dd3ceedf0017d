-- ===== src/Controller/Dedupe/Window.antt =====
-- The duplicate cache is the window of the last 256 keys that were recorded.
use mqtt_raspberry_controlle.Base.{
  ℕ, suc, ◌+◌, ◌%◌, ◌-◌, ◌^◌, ◌≤◌, ◌<◌, true, Option, none, some, List, [], ◌∷◌, ◌++◌, same_iff,
  ltb, ltb→lt, if◌then◌else◌, length, drop, ◌≡◌, refl, sym, arith, ◌∙◌, ap, ◌↔◌, Bool-cases,
  Option-cases, inl, inr,
}
use mqtt_raspberry_controlle.Controller.Dedupe.{
  duplicate_cache_size, Key, same_key, DedupeEntry, Dedupe, update, drop_oldest, trim, record_key,
}

pub same_key_iff : (a b : Key) → (same_key a b ≡ true) ↔ (a ≡ b)
unfolding same_key
same_key_iff a b = ground (arith, same_iff a.topic b.topic)

-- The generation under which a key stands last in the order.
unfoldable pub last_generation : Key → List DedupeEntry → Option ℕ
last_generation k [] = none
last_generation k (e ∷ rest) = elim (last_generation k rest) [
  | some g ↦ some g
  | none ↦ if same_key e.key k then some e.generation else none
]

-- Generations rise along the order, from above `low` up to `high`.
abbrev pub Rising : ℕ → List DedupeEntry → ℕ → Type 0
Rising low [] high = low ≤ high
Rising low (e ∷ rest) high = (low < e.generation) × Rising e.generation rest high

-- The map gives each key its last generation in the order.
pub record Inv (d : Dedupe) : Type 0 where
  pub agree : (k : Key) → d.map k ≡ last_generation k d.order
  pub rising : Rising 0 d.order d.seq
  pub bounded : length d.order ≤ duplicate_cache_size

last_generation-append :
    (k j : Key) (g : ℕ) (order : List DedupeEntry)
    → last_generation j (order ++ record { key = k; generation = g } ∷ [])
      ≡ (if same_key k j then some g else last_generation j order)
unfolding last_generation
last_generation-append k j g [] = ground arith
last_generation-append k j g (e ∷ rest) = ground (arith, last_generation-append k j g rest)

Rising-append :
    (low high : ℕ) (k : Key) (order : List DedupeEntry)
    → Rising low order high
    → Rising low (order ++ record { key = k; generation = high + 1 } ∷ []) (high + 1)
Rising-append low high k [] h = (omega arith, omega arith)
Rising-append low high k (e ∷ rest) (h, r) = (h, Rising-append e.generation high k rest r)

-- A key of the order has a generation above `low`.
last_generation-above :
    (k : Key) (low high g : ℕ) (order : List DedupeEntry)
    → Rising low order high
    → last_generation k order ≡ some g
    → low < g
unfolding last_generation
last_generation-above k low high g [] r h = cc
last_generation-above k low high g (e ∷ rest) (l, r) h =
    ground (arith, last_generation-above k e.generation high g rest r)

Agree : (Key → Option ℕ) → List DedupeEntry → Type 0
Agree m order = (k : Key) → m k ≡ last_generation k order

drop_oldest-Agree :
    (m : Key → Option ℕ) (e : DedupeEntry) (rest : List DedupeEntry) (low high : ℕ)
    → Rising low (e ∷ rest) high
    → Agree m (e ∷ rest)
    → Agree (drop_oldest e m) rest
unfolding Agree drop_oldest last_generation
drop_oldest-Agree m e rest low high (l, r) agree k =
    elim (Option-cases (last_generation e.key rest)) [
      | inl gone ↦ ground (arith, agree k, agree e.key, same_key_iff e.key k)
      | inr (g, later) ↦
          let above = last_generation-above e.key e.generation high g rest r later in
          ground (arith, agree k, agree e.key, same_key_iff e.key k)
    ]

Rising-weaken :
    (low low' high : ℕ) (order : List DedupeEntry)
    → low' ≤ low
    → Rising low order high
    → Rising low' order high
Rising-weaken low low' high [] h r = omega arith
Rising-weaken low low' high (e ∷ rest) h (l, r) = (omega arith, r)

-- The last `duplicate_cache_size` entries of a list.
abbrev pub window {ℓ} : {A : Type ℓ} → List A → List A
window xs = drop (length xs - duplicate_cache_size) xs

abbrev Trimmed : List DedupeEntry → ℕ → (Key → Option ℕ) × List DedupeEntry → Type 0
Trimmed order high r =
    (r.1 ≡ window order) × Agree r.0 r.1 × Rising 0 r.1 high × (length r.1 ≤ duplicate_cache_size)

window_big :
    (e : DedupeEntry) (rest : List DedupeEntry)
    → duplicate_cache_size < length (e ∷ rest)
    → window (e ∷ rest) ≡ window rest
window_big e rest h =
    let less : length (e ∷ rest) - duplicate_cache_size ≡ suc (length rest - duplicate_cache_size) =
      omega arith in
    ap (λ n. drop n (e ∷ rest)) less

window_small :
    (order : List DedupeEntry) → length order ≤ duplicate_cache_size → window order ≡ order
window_small order h =
    let none_left : length order - duplicate_cache_size ≡ 0 = omega arith in
    ap (λ n. drop n order) none_left

trim-Trimmed :
    (m : Key → Option ℕ) (order : List DedupeEntry) (high : ℕ)
    → Agree m order
    → Rising 0 order high
    → Trimmed order high (trim m order)
unfolding trim
trim-Trimmed m [] high agree r = (refl, agree, r, omega arith)
trim-Trimmed m (e ∷ rest) high agree (l, r) =
    elim (Bool-cases (ltb duplicate_cache_size (length (e ∷ rest)))) [
      | inl big ↦
          let (kept, agrees, rises, short) =
            trim-Trimmed (drop_oldest e m) rest high
              (drop_oldest-Agree m e rest 0 high (l, r) agree)
              (Rising-weaken e.generation 0 high rest (omega arith) r) in
          rw (big, trim) (kept ∙ sym (window_big e rest (ltb→lt _ _ big)), agrees, rises, short)
      | inr small ↦
          let fits : length (e ∷ rest) ≤ duplicate_cache_size = ground arith in
          rw (small, trim) (sym (window_small (e ∷ rest) fits), agree, (l, r), fits)
    ]

pub record_key-order :
    (k : Key) (d : Dedupe)
    → Inv d
    → d.seq + 1 < 2 ^ 64
    → Inv (record_key k d)
      × ((record_key k d).order
          ≡ window (d.order ++ record { key = k; generation = d.seq + 1 } ∷ []))
      × ((record_key k d).seq ≡ d.seq + 1)
unfolding record_key Agree
record_key-order k d v fresh =
    let exact : (d.seq + 1) % 2 ^ 64 ≡ d.seq + 1 = omega arith in
    let entry : DedupeEntry = record { key = k; generation = d.seq + 1 } in
    let (kept, agrees, rises, short) =
      trim-Trimmed (update k (some (d.seq + 1)) d.map) (d.order ++ entry ∷ []) (d.seq + 1)
        (λ j. ground (arith, last_generation-append k j (d.seq + 1) d.order, v.agree j))
        (Rising-append 0 d.seq k d.order v.rising) in
    rw exact (record { agree = agrees; rising = rises; bounded = short }, kept, refl)
