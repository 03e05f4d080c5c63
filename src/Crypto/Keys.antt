-- ===== src/Crypto/Keys.antt =====
-- Generated keys and the slots they are loaded from (src/ara/crypto/crypto.cpp).
use my_auto_sar_ap.Prelude.{
  ℕ, zero, suc, ◌+◌, ◌<◌, ◌≡◌, refl, ap, arith, Option, none, some, length, nat_eq, ℕ_eq,
  if◌then◌else◌, inl, inr, Option-cases, Bool-cases, nat_eq_iff,
}
use my_auto_sar_ap.Prelude.Map.{lookup, insert, lookup-insert, lookup-insert_self}
use my_auto_sar_ap.Crypto.{
  KeyStore, KeyRecord, AlgorithmId, KeyUsage, KeySlotType, make_key, generate_key, load_key,
  key_len, fill,
}

-- An id that a key is stored under lies below the next one.
abbrev pub Fits : ℕ → ℕ → Option KeyRecord → Type 0
Fits next k none = Unit
Fits next k (some rec) = k < next

abbrev pub IsKeyStore : KeyStore → Type 0
IsKeyStore ks = (k : ℕ) → Fits ks.next_key_id k (lookup k ks.key_store)

Fits-some :
    (next k : ℕ) (o : Option KeyRecord) (rec : KeyRecord) → o ≡ some rec → Fits next k o → k < next
Fits-some next k none rec e f = ground arith
Fits-some next k (some r) rec e f = f

Fits-more : (next j : ℕ) (o : Option KeyRecord) → Fits next j o → Fits (next + 1) j o
Fits-more next j none f = f
Fits-more next j (some r) f = omega arith

Fits-insert :
    (next j : ℕ) (o : Option KeyRecord) (made : KeyRecord)
    → Fits next j o
    → Fits (next + 1) j (if nat_eq next j then some made else o)
Fits-insert next j o made f = elim (Bool-cases (nat_eq next j)) [
  | inl same ↦ rw same (omega (arith, (nat_eq_iff next j).0 same))
  | inr other ↦ rw other (Fits-more next j o f)
]

length-fill : (draw : ℕ → ℕ) (i n : ℕ) → length (fill draw i n) ≡ n
unfolding fill
length-fill draw i zero = refl
length-fill draw i (suc n) = ap suc (length-fill draw (suc i) n)

next_is_free : (ks : KeyStore) → IsKeyStore ks → lookup ks.next_key_id ks.key_store ≡ none
next_is_free ks sound = elim (Option-cases (lookup ks.next_key_id ks.key_store)) [
  | inl e ↦ e
  | inr (rec, e) ↦
      let below = Fits-some _ ks.next_key_id _ rec e (sound ks.next_key_id) in absurd (omega arith)
]

abbrev made_key : ℕ → (ℕ → ℕ) → AlgorithmId → KeyUsage → KeySlotType → KeyRecord
made_key id draw alg usage slot = record {
  id = id;
  alg_id = alg;
  usage = usage;
  slot = slot;
  material = fill draw 0 (key_len alg);
}

generate_fresh :
    (ks : KeyStore) (draw : ℕ → ℕ) (alg : AlgorithmId) (usage : KeyUsage) (slot : KeySlotType)
    → lookup ks.next_key_id ks.key_store ≡ none
    → ks.next_key_id + 1 < 4294967296
    → generate_key ks draw alg usage slot ≡ (
      record {
        key_store =
            insert ks.next_key_id (made_key ks.next_key_id draw alg usage slot) ks.key_store;
        next_key_id = ks.next_key_id + 1;
      },
      make_key ks.next_key_id alg usage slot,
    )
unfolding generate_key
generate_fresh ks draw alg usage slot free small = ground arith

-- In a store whose ids lie below the next one, and as long as the next one fits 32 bits, `GenerateKey`
-- leaves such a store, stores key material of the algorithm's length under the id of the key that it
-- gives, which `LoadKey` finds in the same slot, and leaves every other key as it was.
pub generate_key_lem :
    (ks : KeyStore) (draw : ℕ → ℕ) (alg : AlgorithmId) (usage : KeyUsage) (slot : KeySlotType)
    (k : ℕ)
    → IsKeyStore ks
    → ks.next_key_id + 1 < 4294967296
    → let (after, key) = generate_key ks draw alg usage slot in
      IsKeyStore after
      × (load_key after key.id alg usage ≡ make_key ks.next_key_id alg usage slot)
      × ((rec : KeyRecord) × (lookup k after.key_store
            ≡ (if nat_eq key.id k then some rec else lookup k ks.key_store))
          × (length rec.material ≡ key_len alg))
unfolding load_key
generate_key_lem ks draw alg usage slot k sound small =
    let id = ks.next_key_id in
    let made = made_key id draw alg usage slot in
    rw (generate_fresh ks draw alg usage slot (next_is_free ks sound) small) (
      (λ j. rw (lookup-insert id j made ks.key_store) (Fits-insert id j _ made (sound j))),
      rw (lookup-insert_self id made ks.key_store, load_key),
      (made, lookup-insert id k made ks.key_store, length-fill draw 0 (key_len alg)),
    )
