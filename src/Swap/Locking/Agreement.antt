-- ===== src/Swap/Locking/Agreement.antt =====
-- What the two parties have in their public slates after they have exchanged keys and the lock
-- height (src/swap/protocol.rs). The next phase starts with a comparison of the checksums of the
-- two public slates.
use mw_btc_swap.Prelude.{
  ℕ, ◌+◌, ◌≤◌, ◌≡◌, ◌∙◌, refl, ap, Text, true, some, none, List, [], ◌∷◌, ◌++◌, map, ok, ℤ, pos,
  unwrap, unwrap_option, Profile, add_u64, i64_max, to_string, parse_i64, arith,
}
use mw_btc_swap.Prelude.Decimal.{parse_i64-to_string, IsDecimal, to_string-IsDecimal}
use mw_btc_swap.Prelude.Actions.{>>=-step, after-unwrap-step, need->>=-step, after, lift, ◌>>=◌}
use mw_btc_swap.Enums.{setup}
use mw_btc_swap.Net.Tcp.{Arrival, newline, ack}
use mw_btc_swap.Net.Tcp.Utf8.{is_utf8, IsAscii, ascii-is_utf8}
use mw_btc_swap.Net.Tcp.Framing.{Carries, as_line, send_msg-Carries, receive_msg-Carries}
use mw_btc_swap.Net.Http.{Wire}
use mw_btc_swap.Bitcoin.Crate.{BitcoinLib, PrivateKey, testnet}
use mw_btc_swap.Bitcoin.Core.{import_btc_address, get_current_block_height}
use mw_btc_swap.Bitcoin.Routines.{create_private_key, get_lock_pub_script}
use mw_btc_swap.Bitcoin.Signing.{serialize_pub_key, serialize_priv_key, deserialize_pub_key}
use mw_btc_swap.Grin.Ops.{GrinOps}
use mw_btc_swap.Swap.Types.{SwapSlatePub}
use mw_btc_swap.Swap.World.{Clients, World, Step, set_status, set_pub_btc, set_prv_btc, to_i64}
use mw_btc_swap.Swap.Calls.{send, receive, import_address, btc_height}
use mw_btc_swap.Swap.Locking.{exchange_keys_mw, exchange_keys_btc, lock_height_btc}

-- The text form of keys: it can be read back, and it is a text.
pub record KeyText (lib : BitcoinLib) : Type 0 where
  pub from_str-to_string : (k : lib.PublicKey) → lib.key_from_str (lib.key_to_string k) ≡ some k
  pub is_utf8-to_string : (k : lib.PublicKey) → is_utf8 (lib.key_to_string k) ≡ true

IsDecimal-IsAscii : (s : Text) → IsDecimal s → IsAscii s
IsDecimal-IsAscii [] h = tt
IsDecimal-IsAscii (c ∷ s) h = (h.0, IsDecimal-IsAscii s h.1)

module _ {lib : BitcoinLib} {ops : GrinOps lib} (cl : Clients) (w : World lib ops) where
  -- The stream after a line was sent or received.
  abbrev pub after_line : Text → List Arrival → World lib ops
  after_line written rest = record w {
    stream = record w.stream {
      incoming = rest;
      outgoing = w.stream.outgoing ++ (written ++ newline ∷ []) ∷ [];
    };
  }

  module _ {rest : List Arrival} (open_stream : w.stream.write_error ≡ none) where
    pub sends :
        (msg : Text)
        → Carries ack w.stream.incoming rest
        → send cl msg w ≡ (ok tt, after_line msg rest)
    sends msg c =
        ap (λ r. (r.0, record w { stream = r.1 }))
          (send_msg-Carries cl.profile msg w.stream c open_stream)

    pub receives :
        {line : Text}
        → Carries line w.stream.incoming rest
        → is_utf8 line ≡ true
        → receive cl w ≡ (ok line, after_line ack rest)
    receives c valid =
        ap (λ r. (r.0, record w { stream = r.1 }))
          (receive_msg-Carries cl.profile w.stream c valid open_stream)

appended_four {ℓ} :
    {A : Type ℓ} (xs : List A) (a b c d : A)
    → (((xs ++ a ∷ []) ++ b ∷ []) ++ c ∷ []) ++ d ∷ [] ≡ xs ++ a ∷ b ∷ c ∷ d ∷ []
appended_four [] a b c d = refl
appended_four (x ∷ xs) a b c d = ap (λ l. x ∷ l) (appended_four xs a b c d)

small_sum : (p : Profile) (a b : ℕ) {n : ℕ} → a + b ≡ n → n ≤ i64_max → add_u64 p a b ≡ ok n
unfolding add_u64
small_sum p a b sum fits = ground arith

small_int : (n : ℕ) → n ≤ i64_max → to_i64 n ≡ ok (pos n)
small_int n fits = ground arith

-- What the public slate holds of the Bitcoin side after the exchange.
abbrev pub agreed :
    (lib : BitcoinLib)
    → SwapSlatePub
    → lib.PublicKey
    → lib.PublicKey
    → lib.PublicKey
    → ℕ
    → SwapSlatePub
agreed lib p pub_a pub_b pub_x n = record p {
  status = setup;
  btc = record p.btc {
    pub_a = some (lib.key_to_string pub_a);
    pub_b = some (lib.key_to_string pub_b);
    pub_x = some (lib.key_to_string pub_x);
    lock_time = some (pos n);
  };
}

-- What each of the two parties says in the exchange, in order.
module _ (lib : BitcoinLib) where
  abbrev pub alice_says : lib.PublicKey → List Text
  alice_says pub_a = lib.key_to_string pub_a ∷ ack ∷ ack ∷ ack ∷ []

  abbrev pub bob_says : lib.PublicKey → lib.PublicKey → ℕ → List Text
  bob_says pub_b pub_x n =
      ack ∷ lib.key_to_string pub_b ∷ lib.key_to_string pub_x ∷ to_string n ∷ []

module _ {lib : BitcoinLib} {ops : GrinOps lib} (cl : Clients) where
  -- The Bitcoin side, up to the lock height.
  abbrev pub bob_setup : Step lib ops ℤ
  bob_setup = do known ← exchange_keys_btc cl; lock_height_btc cl

module _ {lib : BitcoinLib} {ops : GrinOps lib} (cl : Clients) (laws : KeyText lib)
    (w : World lib ops) (open_stream : w.stream.write_error ≡ none) (keys : List lib.SecretKey)
    (n : ℕ) where
  open lib use {PublicKey, public_key, key_to_string}

  -- The messages that the Mimblewimble side reads give it the keys of the Bitcoin side.
  reads_key : (k : PublicKey) → deserialize_pub_key lib (key_to_string k) ≡ ok k
  unfolding deserialize_pub_key
  reads_key k = ap unwrap_option (laws.from_str-to_string k)

  module _ (a : lib.SecretKey) (pub_b pub_x : PublicKey) where
    abbrev pub own : PrivateKey lib.SecretKey
    own = create_private_key lib a

    abbrev pub lock_script : lib.Script
    lock_script = get_lock_pub_script lib (public_key own) pub_x pub_b (pos n) true

    pub alice_exchanges :
        {r0 r1 r2 r3 : List Arrival} {addr : lib.Address} {wire : Wire ops.Tx}
        → Carries ack w.stream.incoming r0
        → Carries (key_to_string pub_b) r0 r1
        → Carries (key_to_string pub_x) r1 r2
        → Carries (to_string n) r2 r3
        → n ≤ i64_max
        → lib.address_from_script lock_script testnet ≡ some addr
        → import_btc_address cl.btc_json cl.btc_core (lib.address_to_string addr) w.wire
          ≡ (ok tt, wire)
        → (w' : World lib ops) × (exchange_keys_mw cl (record w { entropy = a ∷ keys })
            ≡ (ok (record { sk_a = own; pub_script = lock_script; addr = addr }), w'))
          × (w'.slate.pub_slate ≡ agreed lib w.slate.pub_slate (public_key own) pub_b pub_x n)
          × (w'.stream ≡ record w.stream {
            incoming = r3;
            outgoing = w.stream.outgoing ++ map as_line (alice_says lib (public_key own));
          })
          × (w'.wire ≡ wire)
          × (w'.grin_tx ≡ w.grin_tx)
    unfolding exchange_keys_mw serialize_pub_key serialize_priv_key
    alice_exchanges {r0} {r1} {r2} {r3} {addr} {wire} acked got_b got_x got_time fits address
          imported =
        let w1 : World lib ops =
          (set_pub_btc (λ b. record b { pub_a = some (key_to_string (public_key own)) })
            (set_prv_btc (λ b. record b { sk = some (serialize_priv_key lib own) })
              (set_status setup (record w { entropy = keys })).1).1).1 in
        let w2 : World lib ops = after_line cl w1 (key_to_string (public_key own)) r0 in
        let w3 : World lib ops = after_line cl w2 ack r1 in
        let w4 : World lib ops =
          (set_pub_btc (λ b. record b { pub_b = some (key_to_string pub_b) }) w3).1 in
        let w5 : World lib ops = after_line cl w4 ack r2 in
        let w6 : World lib ops =
          (set_pub_btc (λ b. record b { pub_x = some (key_to_string pub_x) }) w5).1 in
        let w7 : World lib ops = after_line cl w6 ack r3 in
        let w8 : World lib ops = (set_pub_btc (λ b. record b { lock_time = some (pos n) }) w7).1 in
        (
          record w8 { wire = wire },
          >>=-step (send cl (key_to_string (public_key own))) _ {s = w1}
                (sends cl w1 open_stream (key_to_string (public_key own)) acked)
              ∙ >>=-step (receive cl) _ {s = w2}
                  (receives cl w2 open_stream got_b (laws.is_utf8-to_string pub_b))
              ∙ >>=-step (lift (deserialize_pub_key lib (key_to_string pub_b))) _ {s = w3}
                  (ap (λ r. (r, w3)) (reads_key pub_b))
              ∙ >>=-step (receive cl) _ {s = w4}
                  (receives cl w4 open_stream got_x (laws.is_utf8-to_string pub_x))
              ∙ >>=-step (lift (deserialize_pub_key lib (key_to_string pub_x))) _ {s = w5}
                  (ap (λ r. (r, w5)) (reads_key pub_x))
              ∙ >>=-step (receive cl) _ {s = w6} (
                  receives cl w6 open_stream got_time (
                    ascii-is_utf8 (to_string n)
                      (IsDecimal-IsAscii (to_string n) (to_string-IsDecimal n))))
              ∙ need->>=-step (parse_i64 (to_string n)) _ {s = w7} (parse_i64-to_string n fits)
              ∙ need->>=-step (lib.address_from_script lock_script testnet) _ {s = w8} address
              ∙ >>=-step (after unwrap (import_address cl (lib.address_to_string addr))) _ {s = w8}
                  (after-unwrap-step (import_address cl (lib.address_to_string addr)) {s = w8}
                    (ap (λ r. (r.0, record w8 { wire = r.1 })) imported)),
          refl,
          ap (λ l. record w.stream { incoming = r3; outgoing = l })
              (appended_four w.stream.outgoing _ _ _ _),
          refl,
          refl,
        )

  module _ (b r x : lib.SecretKey) (pub_a : PublicKey) where
    abbrev pub key_b : PrivateKey lib.SecretKey
    key_b = create_private_key lib b

    abbrev pub key_x : PrivateKey lib.SecretKey
    key_x = create_private_key lib x

    pub bob_exchanges :
        {r0 r1 r2 r3 : List Arrival} {height : ℕ} {wire : Wire ops.Tx}
        → Carries (key_to_string pub_a) w.stream.incoming r0
        → Carries ack r0 r1
        → Carries ack r1 r2
        → get_current_block_height cl.btc_json cl.btc_core w.wire ≡ (ok height, wire)
        → height + w.slate.pub_slate.btc.timelock ≡ n
        → n ≤ i64_max
        → Carries ack r2 r3
        → (w' : World lib ops) × (bob_setup cl (record w { entropy = b ∷ r ∷ x ∷ keys })
            ≡ (ok (pos n), w'))
          × (w'.slate.pub_slate
              ≡ agreed lib w.slate.pub_slate pub_a (public_key key_b) (public_key key_x) n)
          × (w'.stream.outgoing
              ≡ w.stream.outgoing
                ++ map as_line (bob_says lib (public_key key_b) (public_key key_x) n))
    unfolding exchange_keys_btc lock_height_btc serialize_pub_key serialize_priv_key
    bob_exchanges {r0} {r1} {r2} {r3} {height} {wire} got_a acked_b acked_x answer sum fits acked =
        let w1 : World lib ops =
          (set_pub_btc (λ k. record k { pub_x = some (key_to_string (public_key key_x)) })
            (set_prv_btc (λ k. record k { x = some (serialize_priv_key lib key_x) })
              (set_prv_btc
                (λ k. record k { r_sk = some (serialize_priv_key lib (create_private_key lib r)) })
                (set_prv_btc (λ k. record k { sk = some (serialize_priv_key lib key_b) })
                  (set_pub_btc (λ k. record k { pub_b = some (key_to_string (public_key key_b)) })
                    (set_status setup (record w { entropy = keys })).1).1).1).1).1).1 in
        let w2 : World lib ops = after_line cl w1 ack r0 in
        let w3 : World lib ops =
          (set_pub_btc (λ k. record k { pub_a = some (key_to_string pub_a) }) w2).1 in
        let w4 : World lib ops = after_line cl w3 (key_to_string (public_key key_b)) r1 in
        let w5 : World lib ops = after_line cl w4 (key_to_string (public_key key_x)) r2 in
        let w6 : World lib ops = record w5 { wire = wire } in
        let w7 : World lib ops = after_line cl w6 (to_string n) r3 in
        (
          (set_pub_btc (λ k. record k { lock_time = some (pos n) }) w7).1,
          >>=-step (exchange_keys_btc cl) (λ known. lock_height_btc cl)
                {s = record w { entropy = b ∷ r ∷ x ∷ keys }} {s' = w5}
                {a = (key_b, create_private_key lib r, key_x, pub_a)}
                (>>=-step (receive cl) _ {s = w1}
                    (receives cl w1 open_stream got_a (laws.is_utf8-to_string pub_a))
                  ∙ >>=-step (lift (deserialize_pub_key lib (key_to_string pub_a))) _ {s = w2}
                      (ap (λ k. (k, w2)) (reads_key pub_a))
                  ∙ >>=-step (send cl (key_to_string (public_key key_b))) _ {s = w3}
                      (sends cl w3 open_stream (key_to_string (public_key key_b)) acked_b)
                  ∙ >>=-step (send cl (key_to_string (public_key key_x))) _ {s = w4}
                      (sends cl w4 open_stream (key_to_string (public_key key_x)) acked_x))
              ∙ >>=-step (btc_height cl) _ {s = w5}
                  (ap (λ k. (k.0, record w5 { wire = k.1 })) answer)
              ∙ >>=-step (lift (add_u64 cl.profile height w.slate.pub_slate.btc.timelock)) _
                  {s = w6}
                  (ap (λ k. (k, w6))
                    (small_sum cl.profile height w.slate.pub_slate.btc.timelock sum fits))
              ∙ >>=-step (lift (to_i64 n)) _ {s = w6} (ap (λ k. (k, w6)) (small_int n fits))
              ∙ >>=-step (send cl (to_string n)) _ {s = w6}
                  (sends cl w6 open_stream (to_string n) acked),
          refl,
          appended_four w.stream.outgoing _ _ _ _,
        )
