-- ===== src/Rpc/Receipt/Decode.antt =====
-- The receipt that is decoded is the one that the entry point logged (crates/rpc/src/eth.rs).
use bunzo.Prelude.{
  ℕ, zero, suc, ◌+◌, ◌^◌, ◌==◌, ◌≡◌, refl, ap, ◌∙◌, ◌<◌, Bool, true, false, List, [], ◌∷◌, ◌++◌,
  Option, none, some, arith, length, get_elem?, take, drop, if◌then◌else◌, length-append,
}
use bunzo.Types.UserOperation.Bytes.{to_be, length-to_be, of_be-to_be, take-append}
use bunzo.Rpc.Receipt.{receipt_of, sender_of, paymaster_of, decode_data, topic_address}

-- The words of the event: a number is padded to 32 bytes, a missing paymaster is the address 0.
abbrev pub event_data : (nonce : ℕ) → Bool → (cost used : ℕ) → List ℕ
event_data nonce success cost used =
    to_be 32 nonce ++ (to_be 32 (if success then 1 else 0) ++ (to_be 32 cost ++ to_be 32 used))

take_all : (n : ℕ) (xs : List ℕ) → length xs ≡ n → take n xs ≡ xs
take_all zero [] h = refl
take_all zero (x ∷ xs) h = ground arith
take_all (suc n) [] h = refl
take_all (suc n) (x ∷ xs) h = ap (◌∷◌ x) (take_all n xs (omega (arith, h)))

drop_past : (xs ys : List ℕ) (k m : ℕ) → k ≡ length xs + m → drop k (xs ++ ys) ≡ drop m ys
drop_past [] ys k m h = ap (λ n. drop n ys) (omega (arith, h))
drop_past (x ∷ xs) ys zero m h = ground arith
drop_past (x ∷ xs) ys (suc k) m h = drop_past xs ys k m (omega (arith, h))

get_past : (xs ys : List ℕ) (k m : ℕ) → k ≡ length xs + m → get_elem? (xs ++ ys) k ≡ get_elem? ys m
get_past [] ys k m h = ap (get_elem? ys) (omega (arith, h))
get_past (x ∷ xs) ys zero m h = ground arith
get_past (x ∷ xs) ys (suc k) m h = get_past xs ys k m (omega (arith, h))

length_data :
    (nonce : ℕ) (success : Bool) (cost used : ℕ) → length (event_data nonce success cost used) ≡ 128
length_data nonce success cost used =
    let flag = to_be 32 (if success then 1 else 0) in
    omega (
      arith,
      length-append (to_be 32 nonce) (flag ++ (to_be 32 cost ++ to_be 32 used)),
      length-append flag (to_be 32 cost ++ to_be 32 used),
      length-append (to_be 32 cost) (to_be 32 used),
      length-to_be 32 nonce,
      length-to_be 32 (if success then 1 else 0),
      length-to_be 32 cost,
      length-to_be 32 used,
    )

-- The byte that tells success from failure is the last one of the second word.
flag_byte :
    (success : Bool)
    → get_elem? (to_be 32 (if success then 1 else 0)) 31 ≡ some (if success then 1 else 0)
unfolding to_be
flag_byte true = refl
flag_byte false = refl

get_before : (xs ys : List ℕ) (k a : ℕ) → get_elem? xs k ≡ some a → get_elem? (xs ++ ys) k ≡ some a
get_before [] ys k a h = ground arith
get_before (x ∷ xs) ys zero a h = h
get_before (x ∷ xs) ys (suc k) a h = get_before xs ys k a h

data_words :
    (nonce : ℕ) (success : Bool) (cost used : ℕ)
    → let bytes = event_data nonce success cost used in
      (take 32 bytes ≡ to_be 32 nonce)
      × (get_elem? bytes 63 ≡ some (if success then 1 else 0))
      × (take 32 (drop 64 bytes) ≡ to_be 32 cost)
      × (take 32 (drop 96 bytes) ≡ to_be 32 used)
data_words nonce success cost used =
    let flag = to_be 32 (if success then 1 else 0) in
    let tail = to_be 32 cost ++ to_be 32 used in
    let n = length-to_be 32 nonce in
    let f = length-to_be 32 (if success then 1 else 0) in
    let c = length-to_be 32 cost in
    (
      take-append 32 (to_be 32 nonce) (flag ++ tail) n,
      get_past (to_be 32 nonce) (flag ++ tail) 63 31 (omega (arith, n))
          ∙ get_before flag tail 31 (if success then 1 else 0) (flag_byte success),
      ap (take 32) (
            drop_past (to_be 32 nonce) (flag ++ tail) 64 32 (omega (arith, n))
            ∙ drop_past flag tail 32 0 (omega (arith, f)))
          ∙ take-append 32 (to_be 32 cost) (to_be 32 used) c,
      ap (take 32) (
            drop_past (to_be 32 nonce) (flag ++ tail) 96 64 (omega (arith, n))
            ∙ (drop_past flag tail 64 32 (omega (arith, f))
                ∙ drop_past (to_be 32 cost) (to_be 32 used) 32 0 (omega (arith, c))))
          ∙ take_all 32 (to_be 32 used) (length-to_be 32 used),
    )

decode_data-event_data :
    (nonce : ℕ) (success : Bool) (cost used : ℕ)
    → nonce < 256 ^ 32
    → cost < 256 ^ 32
    → used < 256 ^ 32
    → decode_data (event_data nonce success cost used) ≡ (nonce, success, cost, used)
unfolding decode_data
decode_data-event_data nonce success cost used n c u =
    let (word, flag, word', word'') = data_words nonce success cost used in
    ground (
      arith,
      length_data nonce success cost used,
      word,
      flag,
      word',
      word'',
      of_be-to_be 32 nonce n,
      of_be-to_be 32 cost c,
      of_be-to_be 32 used u,
    )

-- The receipt of a log that the entry point wrote in the layout of its event holds the values that
-- were logged: the sender, the paymaster (address 0 when there is none), the nonce, the success flag
-- and both amounts of gas.
pub receipt_of-event :
    (signature hash sender paymaster nonce : ℕ) (success : Bool) (cost used : ℕ) (tx : Option ℕ)
    (json : Option (List ℕ))
    → sender < 2 ^ 160
    → paymaster < 2 ^ 160
    → nonce < 256 ^ 32
    → cost < 256 ^ 32
    → used < 256 ^ 32
    → receipt_of hash
        (record {
          topics = signature ∷ hash ∷ sender ∷ paymaster ∷ [];
          data_bytes = event_data nonce success cost used;
          transaction_hash = tx;
        })
        json
      ≡ record {
        user_op_hash = hash;
        sender = sender;
        nonce = nonce;
        paymaster = if paymaster == 0 then none else some paymaster;
        actual_gas_cost = cost;
        actual_gas_used = used;
        success = success;
        reason = "";
        receipt = json;
      }
unfolding receipt_of sender_of paymaster_of topic_address
receipt_of-event signature hash sender paymaster nonce success cost used tx json s p n c u =
    ground (arith, decode_data-event_data nonce success cost used n c u)
