-- ===== src/SessionCipher/Keys/Replay.antt =====
-- `get_or_create_message_key` gives out no key twice.
use mathlib.Core.List.{append_assoc}
use libsignal_client.Common.{
  ℕ, zero, suc, ◌+◌, ◌-◌, ◌≤◌, ◌<◌, ◌≡◌, refl, inl, inr, none, some, List, [], ◌∷◌, ◌++◌, arith,
  length, length-take, remove_at, length-remove_at-le, ltb, ltb→lt, ltb→le, Bool-cases,
}
use libsignal_client.Consts.{max_message_keys, max_forward_jumps}
use libsignal_client.Error.{ok, err, duplicated_message}
use libsignal_client.Primitives.{Primitives, Lawful}
use libsignal_client.Curve.PublicKey.{PublicKey}
use libsignal_client.Proto.Storage.{Chain, MessageKey}
use libsignal_client.Kdf
use libsignal_client.Ratchet.ChainKey.{
  ChainKey, message_keys, next_chain_key, u32_mod, index-next_chain_key, length-next_chain_key,
  counter-message_keys,
}
use libsignal_client.Ratchet.ChainKey
use libsignal_client.Ratchet.MessageKeys.{MessageKeys}
use libsignal_client.State.Session.{
  SessionState, get_receiver_chain, get_receiver_chain_key, store_message_key, store_chain_key,
  find_message_key, session_version,
}
use libsignal_client.State.Session.Chains.{with_chain, get_receiver_chain-with_chain}
use libsignal_client.State.Session.Stored.{
  Descending, Descending-mono, take-Descending, remove_at-Descending, find_above, find-remove_at,
}
use libsignal_client.State.Session.WellFormed.{IsOrdered}
use libsignal_client.SessionCipher.Keys.{get_or_create_message_key}
use libsignal_client.SessionCipher.Keys.Skip.{advance, skipped, index-advance}
use libsignal_client.SessionCipher.Keys.Message.{
  moved, get_or_create_message_key_ahead, get_or_create_message_key_far,
  get_or_create_message_key_late, get_or_create_message_key_gone,
}

kdf-next_chain_key :
    ⦃p : Primitives⦄ → (n : ℕ) (k : ChainKey) → (next_chain_key (advance n k)).kdf ≡ k.kdf
unfolding advance next_chain_key
kdf-next_chain_key zero k = refl
kdf-next_chain_key (suc n) k = kdf-next_chain_key n (next_chain_key k)

-- The keys that are stepped over have the counters from the chain's up, in front of older ones.
skipped-Descending :
    ⦃p : Primitives⦄
    → (n : ℕ) (k : ChainKey) (ks : List MessageKey) → k.index + n < u32_mod
    → Descending k.index ks
    → Descending (k.index + n) (skipped n k ++ ks)
unfolding skipped store_message_key
skipped-Descending zero k ks fits d = Descending-mono k.index (k.index + 0) ks (omega arith) d
skipped-Descending (suc n) k ks fits d =
    let step = index-next_chain_key k (omega arith) in
    let front = store_message_key (message_keys k) in
    let sum : (next_chain_key k).index + n ≡ k.index + suc n = omega (arith, step) in
    rw (append_assoc (skipped n (next_chain_key k)) (front ∷ []) ks, ← sum)
      (skipped-Descending n (next_chain_key k) (front ∷ ks) (omega (arith, step))
        (omega (arith, step, counter-message_keys k), rw (counter-message_keys k) d))

-- A session that is ready to read messages of a chain: the chain is found, its key is `key`, and
-- the keys that it keeps are in order, below the index of `key`, and within the limit.
pub record Ready (sender : PublicKey) (key : ChainKey) (s : SessionState) : Type 0 where
  pub chain : Chain
  pub place : ℕ
  pub found : get_receiver_chain sender s ≡ ok (some (chain, place))
  pub stored : chain.chain_key ≡ some (store_chain_key key)
  pub version : Kdf.new (session_version s) ≡ ok key.kdf
  pub sized : length key.key ≡ 32
  pub ordered : Descending key.index chain.message_keys
  pub room : length chain.message_keys ≤ max_message_keys

pub get_receiver_chain_key-Ready :
    {sender : PublicKey} {key : ChainKey} {s : SessionState}
    → Ready sender key s
    → get_receiver_chain_key sender s ≡ ok (some key)
unfolding get_receiver_chain_key store_chain_key ChainKey.new
get_receiver_chain_key-Ready r = ground (arith, r.found, r.stored, r.version, r.sized)

-- After a key was given out for `counter`: the session is ready for more, and holds no key for
-- `counter`, which lies behind the chain.
pub record Spent (sender : PublicKey) (counter : ℕ) (s : SessionState) : Type 0 where
  pub key : ChainKey
  pub ready : Ready sender key s
  pub past : counter < key.index
  pub gone : find_message_key counter ready.chain.message_keys ≡ none

module _ ⦃p : Primitives⦄ (sender : PublicKey) (k : ChainKey) (counter : ℕ) (s : SessionState)
    (r : Ready sender k s) (fits : counter + 1 < u32_mod) where
  late-Spent :
      (m : MessageKey) (pos : ℕ) {s' : SessionState}
      → counter < k.index
      → find_message_key counter r.chain.message_keys ≡ some (m, pos)
      → s'
        ≡ with_chain s r.place
            (record r.chain { message_keys = remove_at r.chain.message_keys pos })
      → Spent sender counter s'
  unfolding session_version
  late-Spent m pos late f e = rw e (record {
    key = k;
    ready = record {
      chain = record r.chain { message_keys = remove_at r.chain.message_keys pos };
      place = r.place;
      found = get_receiver_chain-with_chain sender s r.chain r.place r.found _ refl;
      stored = r.stored;
      version = r.version;
      sized = r.sized;
      ordered = remove_at-Descending pos k.index r.chain.message_keys r.ordered;
      room = omega (arith, length-remove_at-le r.chain.message_keys pos, r.room);
    };
    past = late;
    gone = find-remove_at counter k.index r.chain.message_keys m pos r.ordered f;
  })

  moved-ordered :
      k.index ≤ counter
      → Descending
          (next_chain_key (advance (counter - k.index) k)).index
          (moved (counter - k.index) k r.chain).message_keys
  moved-ordered behind =
      let jump = counter - k.index in
      let reached = index-advance jump k (omega arith) in
      let next = index-next_chain_key (advance jump k) (omega (arith, reached)) in
      take-Descending 2000 _ (skipped jump k ++ r.chain.message_keys) (
        Descending-mono (k.index + jump) _ (skipped jump k ++ r.chain.message_keys)
          (omega (arith, reached, next))
          (skipped-Descending jump k r.chain.message_keys (omega arith) r.ordered))

  moved_gone :
      k.index ≤ counter
      → find_message_key counter (moved (counter - k.index) k r.chain).message_keys ≡ none
  moved_gone behind =
      let jump = counter - k.index in
      find_above counter (k.index + jump) _
        (take-Descending 2000 _ (skipped jump k ++ r.chain.message_keys)
          (skipped-Descending jump k r.chain.message_keys (omega arith) r.ordered))
        (omega arith)

  -- The chain that has moved past the message is ready for the next one.
  pub ahead-Spent :
      (laws : Lawful p) {s' : SessionState}
      → k.index ≤ counter
      → s' ≡ with_chain s r.place (moved (counter - k.index) k r.chain)
      → (t : Spent sender counter s') × (t.key ≡ next_chain_key (advance (counter - k.index) k))
  unfolding session_version
  ahead-Spent laws behind e =
      let jump = counter - k.index in
      let reached = index-advance jump k (omega arith) in
      let next = index-next_chain_key (advance jump k) (omega (arith, reached)) in
      rw e (
        record {
          key = next_chain_key (advance jump k);
          ready = record {
            chain = moved jump k r.chain;
            place = r.place;
            found = get_receiver_chain-with_chain sender s r.chain r.place r.found _ refl;
            stored = refl;
            version = rw (kdf-next_chain_key jump k) r.version;
            sized = length-next_chain_key laws (advance jump k);
            ordered = moved-ordered behind;
            room = omega (arith, length-take 2000 (skipped jump k ++ r.chain.message_keys));
          };
          past = omega (arith, reached, next);
          gone = moved_gone behind;
        },
        refl,
      )

  -- A success writes to the sender's chain alone, and leaves the session with no key for the
  -- message.
  pub record Given (s' : SessionState) : Type 0 where
    pub chain' : Chain
    pub written : s' ≡ with_chain s r.place chain'
    pub spent : Spent sender counter s'
    pub ordered' : IsOrdered chain'

  late-Given :
      (m : MessageKey) (pos : ℕ) {s' : SessionState}
      → counter < k.index
      → find_message_key counter r.chain.message_keys ≡ some (m, pos)
      → s'
        ≡ with_chain s r.place
            (record r.chain { message_keys = remove_at r.chain.message_keys pos })
      → Given s'
  unfolding store_chain_key
  late-Given m pos late f e = record {
    chain' = record r.chain { message_keys = remove_at r.chain.message_keys pos };
    written = e;
    spent = late-Spent m pos late f e;
    ordered' = (
      rw r.stored (remove_at-Descending pos k.index r.chain.message_keys r.ordered),
      omega (arith, length-remove_at-le r.chain.message_keys pos, r.room),
    );
  }

  ahead-Given :
      (laws : Lawful p) {s' : SessionState}
      → k.index ≤ counter
      → s' ≡ with_chain s r.place (moved (counter - k.index) k r.chain)
      → Given s'
  unfolding store_chain_key
  ahead-Given laws behind e = record {
    chain' = moved (counter - k.index) k r.chain;
    written = e;
    spent = (ahead-Spent laws behind e).0;
    ordered' = (
      moved-ordered behind,
      omega (arith, length-take 2000 (skipped (counter - k.index) k ++ r.chain.message_keys)),
    );
  }

  -- A key that was given out is spent.
  pub get_or_create_message_key-Given :
      (laws : Lawful p) {keys : MessageKeys} {s' : SessionState}
      → get_or_create_message_key sender k counter s ≡ (ok keys, s')
      → Given s'
  get_or_create_message_key-Given laws {keys} {s'} h = elim (Bool-cases (ltb counter k.index)) [
    | inl late ↦
        let (m, pos, f, e) =
          get_or_create_message_key_late sender k counter s r.chain r.place r.found r.room
            (omega arith) (ltb→lt counter k.index late) h in
        late-Given m pos (ltb→lt counter k.index late) f e
    | inr behind ↦ elim (Bool-cases (ltb max_forward_jumps (counter - k.index))) [
      | inl far ↦ cc (
        h,
        get_or_create_message_key_far sender k counter s r.chain r.place r.found r.room
            (omega arith) (ltb→lt 2000 (counter - k.index) far),
      )
      | inr near ↦ ahead-Given laws (ltb→le counter k.index behind) (
          cc (
            h,
            get_or_create_message_key_ahead sender k counter s r.chain r.place r.found r.room
                (omega arith) (ltb→le counter k.index behind)
                (ltb→le 2000 (counter - k.index) near),
          ))
    ]
  ]

-- A message whose key is spent is reported as a duplicate, and the session stays as it is.
pub Spent-duplicated :
    ⦃p : Primitives⦄
    → {sender : PublicKey} {counter : ℕ} {s : SessionState} (t : Spent sender counter s)
    → counter < u32_mod
    → get_or_create_message_key sender t.key counter s
      ≡ (err (duplicated_message t.key.index counter), s)
Spent-duplicated {sender} {counter} {s} t fits =
    let r = t.ready in
    get_or_create_message_key_gone sender t.key counter s r.chain r.place r.found r.room fits t.past
      t.gone
