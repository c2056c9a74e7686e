-- ===== src/Redis/Tests.antt =====
-- A Redis server in memory, and the repair of keys on it.
use screener_cd.Prelude.{
  ℕ, ◌≡◌, ◌≢◌, refl, sym, ap, ◌∙◌, inl, true, List, [], ◌∷◌, Option, none, some, arith, length,
}
use screener_cd.Prelude.Int.{ℤ, pos}
use screener_cd.Prelude.Dict.{lookup, insert, remove, has_key, lookup-insert, lookup-remove}
use screener_cd.Text.{
  Text, codes, text_eq, eqb, eqb_iff, split_byte, join_byte, cut_byte, contains_byte, to_lower,
  to_upper, trim_space, is_space,
}
use screener_cd.Util.Helpers.{
  normalize_exchange_name, bybit_to_gate_symbol, default_split, split_suffix, insert_at,
}
use screener_cd.Redis.Normalize.{
  Fields, RedisOps, field_exchange, field_symbol, field_timestamp, field_price, ordered, others,
  flatten_fields, parse_timestamp, renamed, is_fresher, finish, rename_dest, merge_into,
  merge_fields, merge_and_delete, normalize_price, normalize_key,
}
use screener_cd.Redis.Flatten.{first_of, Distinct}
use screener_cd.Redis.Merge.{IsRedis, IsMoved, merge_and_delete-IsMoved}

abbrev Store : Type 0
Store = List (Text × Fields)

abbrev or_none : Option Fields → Fields
or_none none = []
or_none (some m) = m

abbrev hash_of : Store → Text → Fields
hash_of s k = or_none (lookup k s)

abbrev put_all : Fields → Fields → Fields
put_all [] m = m
put_all ((k, v) ∷ fs) m = insert k v (put_all fs m)

abbrev memory : RedisOps Store
memory = record {
  hget_all = λ s k. some (hash_of s k);
  hset = λ k fs s. (insert k (put_all fs (hash_of s k)) s, true);
  del = λ k s. (remove k s, true);
  scan = λ s c p. some ([], 0);
}

lookup-put_all :
    (fs m : Fields) (f : Text) → lookup f (put_all fs m) ≡ first_of (lookup f fs) (lookup f m)
unfolding lookup
lookup-put_all [] m f = refl
lookup-put_all ((k, v) ∷ fs) m f =
    ground (arith, lookup-insert k f v (put_all fs m), lookup-put_all fs m f)

hash-insert : (k j : Text) (m : Fields) (s : Store) → k ≢ j → hash_of (insert k m s) j ≡ hash_of s j
hash-insert k j m s ne = ground (arith, lookup-insert k j m s, eqb_iff k j)

hash-insert_self : (k : Text) (m : Fields) (s : Store) → hash_of (insert k m s) k ≡ m
hash-insert_self k m s = ground (arith, lookup-insert k k m s, eqb_iff k k)

hash-remove : (k j : Text) (s : Store) → k ≢ j → hash_of (remove k s) j ≡ hash_of s j
hash-remove k j s ne = ground (arith, lookup-remove k j s, eqb_iff k j)

hash-remove_self : (k : Text) (s : Store) → hash_of (remove k s) k ≡ []
hash-remove_self k s = ground (arith, lookup-remove k k s, eqb_iff k k)

memory-IsRedis : IsRedis memory hash_of
memory-IsRedis = record {
  hget_all_eq = λ s k m h. sym (cc h);
  hset_other = λ k fs s j ne. hash-insert k j (put_all fs (hash_of s k)) s ne;
  hset_unnamed = λ k fs s f h.
      ap (lookup f) (hash-insert_self k (put_all fs (hash_of s k)) s)
      ∙ lookup-put_all fs (hash_of s k) f
      ∙ rw h refl;
  hset_done = λ k fs s f d w.
      ap (lookup f) (hash-insert_self k (put_all fs (hash_of s k)) s)
      ∙ lookup-put_all fs (hash_of s k) f;
  del_other = λ k s j ne. hash-remove k j s ne;
  del_self = λ k s. inl (hash-remove_self k s);
  del_done = λ k s w. hash-remove_self k s;
}

-- A time is written in unary.
abbrev unary : Text → Option ℤ
unary s = some (pos (length s))

abbrev old_key : Text
old_key = codes "price:GateIO:BTCUSDT"

abbrev new_key : Text
new_key = codes "price:gate:BTC_USDT"

abbrev hash : Fields
hash = (field_price, codes "5") ∷ (field_timestamp, codes "11") ∷ (codes "note", codes "x") ∷ []

abbrev store : Store
store = (old_key, hash) ∷ (new_key, (field_timestamp, codes "1") ∷ []) ∷ []

repair : Store → Option ℕ × Store
unfolding normalize_key normalize_price normalize_exchange_name split_byte cut_byte join_byte
    contains_byte merge_and_delete merge_fields merge_into finish rename_dest is_fresher renamed
    parse_timestamp flatten_fields ordered others has_key lookup insert remove eqb to_lower to_upper
    trim_space is_space
repair s = normalize_key memory unary field_price old_key s

-- The old key's fresher hash goes to the Gate key.
repaired : repair store ≡ (
  some 1,
  (
    new_key,
    (field_timestamp, codes "11")
        ∷ (codes "note", codes "x")
        ∷ (field_symbol, codes "BTC_USDT")
        ∷ (field_exchange, codes "gate")
        ∷ (field_price, codes "5")
        ∷ [],
  )
      ∷ [],
)
unfolding repair bybit_to_gate_symbol default_split split_suffix insert_at
repaired = refl

-- The merge of that key with its symbol's Gate form.
merged : Store → Option ℕ × Store
merged s = merge_and_delete memory unary old_key new_key (codes "gate") (codes "BTC_USDT") s

moved : merged store ≡ (some 1, (merged store).1)
unfolding merged merge_and_delete merge_fields merge_into finish is_fresher renamed parse_timestamp
    lookup insert eqb flatten_fields ordered others has_key
moved = refl

hash-Distinct : Distinct (hash_of store old_key)
unfolding lookup has_key eqb
hash-Distinct = (refl, (refl, (refl, tt)))

apart : old_key ≢ new_key
unfolding eqb
apart e = cc (ap (eqb old_key) e)

merge_and_delete-IsMoved_example :
    IsMoved memory hash_of unary old_key new_key
      (codes "gate")
      (codes "BTC_USDT")
      store
      (merged store).1
unfolding merged
merge_and_delete-IsMoved_example =
    merge_and_delete-IsMoved memory hash_of unary old_key new_key (codes "gate") (codes "BTC_USDT")
      store (merged store).1 memory-IsRedis hash-Distinct apart moved
