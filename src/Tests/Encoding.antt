-- ===== src/Tests/Encoding.antt =====
-- A codec for the tests: numbers are single characters above the delimiters.
use explorer_kv.Prelude.{
  ℕ, zero, suc, ◌+◌, ◌-◌, ◌<◌, Bool, true, false, Option, none, some, List, [], ◌∷◌, ◌≡◌, refl, ap,
  ◌∙◌, arith, elem,
}
use explorer_kv.Prelude.Int.{ℤ, pos, negsuc}
use explorer_kv.Transaction.{Tx, Block, TxOutputKey}
use explorer_kv.Log1.{Text, Codec}
use explorer_kv.Log1.RoundTrip.{IsField, IsCodec}
use explorer_kv.NotifyLog.{NotifyCodec}
use explorer_kv.NotifyLog.RoundTrip.{IsNotifyCodec}

letter : ℕ → ℕ
letter n = n + 200

unletter : ℕ → ℕ
unletter k = k - 200

unletter-letter : (n : ℕ) → unletter (letter n) ≡ n
unfolding letter unletter
unletter-letter n = omega arith

code : List ℕ → Text
code [] = []
code (n ∷ ns) = letter n ∷ code ns

uncode : Text → List ℕ
uncode [] = []
uncode (k ∷ s) = unletter k ∷ uncode s

uncode-code : (ns : List ℕ) → uncode (code ns) ≡ ns
unfolding code uncode
uncode-code [] = refl
uncode-code (n ∷ ns) = rw (uncode-code ns, unletter-letter n) refl

no_delimiter : (d : ℕ) (ns : List ℕ) → d < 200 → elem d (code ns) ≡ false
unfolding code letter
no_delimiter d [] h = refl
no_delimiter d (n ∷ ns) h = ground (arith, no_delimiter d ns h)

code-IsField : (n : ℕ) (ns : List ℕ) → IsField (code (n ∷ ns))
code-IsField n ns = record {
  some_text = unfold code in λ e. cc;
  no_comma = no_delimiter 44 (n ∷ ns) (omega arith);
  no_bar = no_delimiter 124 (n ∷ ns) (omega arith);
  no_newline = no_delimiter 10 (n ∷ ns) (omega arith);
}

bit : Bool → ℕ
bit false = 0
bit true = 1

unbit : ℕ → Bool
unbit zero = false
unbit (suc n) = true

unbit-bit : (b : Bool) → unbit (bit b) ≡ b
unfolding bit unbit
unbit-bit false = refl
unbit-bit true = refl

-- transactions as numbers: 0 starts an input, 1 a transaction with the inputs that follow
from_vin : List TxOutputKey → List ℕ → List ℕ
from_vin [] s = s
from_vin (i ∷ vin) s = 0 ∷ i.hash ∷ i.position ∷ from_vin vin s

from_txs : List Tx → List ℕ
from_txs [] = []
from_txs (tx ∷ txs) = 1 ∷ tx.hash ∷ tx.vout ∷ bit tx.is_coinbase ∷ from_vin tx.vin (from_txs txs)

to_txs : List ℕ → List Tx × List TxOutputKey
to_txs (zero ∷ h ∷ p ∷ s) =
    let (txs, vin) = to_txs s in (txs, record { hash = h; position = p } ∷ vin)
to_txs (suc _ ∷ h ∷ n ∷ b ∷ s) =
    let (txs, vin) = to_txs s in
    (record { hash = h; vin = vin; vout = n; is_coinbase = unbit b } ∷ txs, [])
to_txs _ = ([], [])

to_txs-from_vin :
    (vin : List TxOutputKey) (s : List ℕ) (txs : List Tx)
    → to_txs s ≡ (txs, [])
    → to_txs (from_vin vin s) ≡ (txs, vin)
unfolding to_txs from_vin
to_txs-from_vin [] s txs h = h
to_txs-from_vin (i ∷ vin) s txs h = rw (to_txs-from_vin vin s txs h) refl

to_txs-from_txs : (txs : List Tx) → to_txs (from_txs txs) ≡ (txs, [])
unfolding to_txs from_txs
to_txs-from_txs [] = refl
to_txs-from_txs (tx ∷ txs) =
    rw (to_txs-from_vin tx.vin (from_txs txs) txs (to_txs-from_txs txs), unbit-bit tx.is_coinbase)
      refl

tx_of : List Tx × List TxOutputKey → Option Tx
tx_of (tx ∷ [], []) = some tx
tx_of _ = none

block_of : List ℕ → Option Block
block_of (h ∷ prev ∷ time ∷ s) =
    some (record { hash = h; hash_prev_block = prev; block_time = time; vtx = (to_txs s).0 })
block_of _ = none

show : ℤ → Text
show (pos n) = code (0 ∷ n ∷ [])
show (negsuc n) = code (1 ∷ n ∷ [])

int_of : List ℕ → ℤ
int_of (zero ∷ n ∷ _) = pos n
int_of (suc _ ∷ n ∷ _) = negsuc n
int_of _ = pos 0

zeros : ℕ → List ℕ
zeros zero = []
zeros (suc n) = 0 ∷ zeros n

pub codec : Codec
codec = record {
  atoi = λ s. int_of (uncode s);
  show_int = show;
  date = code (0 ∷ []);
  hash_text = λ h. code (h ∷ zeros 63);
  encode_tx = λ tx. code (from_txs (tx ∷ []));
  decode_tx = λ s. tx_of (to_txs (uncode s));
  encode_block = λ b. code (b.hash ∷ b.hash_prev_block ∷ b.block_time ∷ from_txs b.vtx);
  decode_block = λ s. block_of (uncode s);
}

show-IsField : (z : ℤ) → IsField (show z)
unfolding show
show-IsField (pos n) = code-IsField 0 (n ∷ [])
show-IsField (negsuc n) = code-IsField 1 (n ∷ [])

int_of-show : (z : ℤ) → int_of (uncode (show z)) ≡ z
unfolding show int_of
int_of-show (pos n) = ap int_of (uncode-code (0 ∷ n ∷ []))
int_of-show (negsuc n) = ap int_of (uncode-code (1 ∷ n ∷ []))

pub codec-IsCodec : IsCodec codec
unfolding codec tx_of block_of
codec-IsCodec = record {
  atoi-show_int = int_of-show;
  decode_tx-encode_tx =
      λ tx. ap (λ ns. tx_of (to_txs ns)) (uncode-code _) ∙ ap tx_of (to_txs-from_txs (tx ∷ []));
  decode_block-encode_block = λ b.
      ap block_of (uncode-code _)
      ∙ ap
          (λ (r : List Tx × List TxOutputKey). some (record {
            hash = b.hash;
            hash_prev_block = b.hash_prev_block;
            block_time = b.block_time;
            vtx = r.0;
          }))
          (to_txs-from_txs b.vtx);
  length-hash_text = λ h. unfold code zeros in refl;
  date_field = code-IsField 0 [];
  int_field = show-IsField;
  hash_field = λ h. code-IsField h (zeros 63);
  tx_field = λ tx. unfold from_txs in code-IsField 1 _;
  block_field = λ b. code-IsField b.hash _;
}

head_of : List ℕ → ℕ
head_of [] = 0
head_of (n ∷ ns) = n

pub notify_codec : NotifyCodec
notify_codec = record {
  codec = codec;
  atoll = λ s. int_of (uncode s);
  show_long = show;
  date = λ t. code (t ∷ []);
  str2time = λ s. pos (head_of (uncode s));
  hash_of = λ s. head_of (uncode s);
}

pub notify_codec-IsNotifyCodec : IsNotifyCodec notify_codec
unfolding notify_codec codec head_of
notify_codec-IsNotifyCodec = record {
  codec_ok = codec-IsCodec;
  atoll-show_long = int_of-show;
  str2time-date = λ t h. ap (λ ns. pos (head_of ns)) (uncode-code (t ∷ []));
  hash_of-hash_text = λ h. ap head_of (uncode-code (h ∷ zeros 63));
  long_field = show-IsField;
  date_field = λ t. code-IsField t [];
}
