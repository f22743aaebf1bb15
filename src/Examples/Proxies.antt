-- ===== src/Examples/Proxies.antt =====
-- A table of two gateways, and the theorems at it.
use erina.Examples.{flip_cipher, flip_cipher-IsCipher}
use erina.Base.{
  Bool-cases, inl, inr, text_same, text_same_to, subst, sym, ◌≤◌, replicate, zero, suc, ◌≡◌, refl,
  arith, false, none, some, List, [], ◌∷◌, ◌++◌, Option, text_key, drop, if◌then◌else◌,
}
use erina.Words.{Bytes}
use erina.Outcome.{Outcome, ok}
use erina.Msg.Types.{Msg, Exit, done, failed, panic, new_msg}
use erina.Msg.Encode.{
  msg2binary, prepare, seal_body, seal_plain, seal_random, seal, head_bytes, frame_bytes,
  guid_bytes, flag_byte, data_byte,
}
use erina.Msg.Mask.{toggle_mask, mask_ids, mask_content, mask_loop, deferred}
use erina.Msg.Key.{random_key_get, key_rounds, key_round}
use mathlib.Core.Option
use erina.Crc.{crc, crc_loop, crc_byte, crc_bits, crc_bit}
use erina.Aes.{encrypt, pkcs5_padding, blocks}
use erina.Msg.Decode.{
  binary2msg, read_front, read_flags, read_ids, read_data_header, check_length, check_header,
  open_body, open_plain,
}
use erina.Sentinel.Types.{Text}
use erina.Queue.Types.{Queue}
use erina.Queue.Search.{next, next_at}
use erina.Queue.Cells.{Cells}
use erina.Queue.Laws.{Represents}
use erina.Queue.Removal.{values, mem}
use erina.Queue.Retrain.Counted.{times}
use erina.Proxy.Comets.{udp, tcp, read_all, updating_comet_que}
use erina.Proxy.Comets.Kept
use erina.Proxy.Comets.Kept.{live_urls, Once}
use erina.Proxy.Server.{
  Served, choose_udp_server, naming, random_byte32, Draws, reply_to, serve, choosing, again, sent,
}
use erina.Proxy.Server.Reply
use erina.Proxy.Server.Reply.{Usable, Fits}
use erina.Proxy.Server.Chosen
use erina.Proxy.Server.Chosen.{Answers}
use erina.Proxy.Server.Tried.{Sits}
use erina.Proxy.Server.Spinning
use erina.Proxy.Server.Asked
use erina.Proxy.Server.Asked.{Asks}

-- "udp://7" and "tcp://8".
abbrev first_url : Text
first_url = udp ++ (55 ∷ [])

abbrev second_url : Text
second_url = tcp ++ (56 ∷ [])

abbrev gateways : Queue Text
gateways = record {
  brk = 2;
  cell = λ p. elim p [
    | zero ↦ some (record { prev = none; next = some 1; value = some first_url })
    | suc n ↦ elim n [
      | zero ↦ some (record { prev = some 0; next = none; value = some second_url })
      | suc m ↦ none
    ]
  ];
  head = some 0;
  tail = some 1;
  count = 2;
  cursor = some 1;
}

abbrev row : Cells Text
row = (0, some first_url) ∷ ((1, some second_url) ∷ [])

gateways-Represents : Represents gateways row
gateways-Represents = record {
  head_is = refl;
  tail_is = refl;
  linked = (refl, (refl, _));
  separate = (refl, (refl, _));
  below = (omega arith, (omega arith, _));
  counted = refl;
  few = omega arith;
  fits = omega arith;
}

at_most : (v : Text) → (if text_same v second_url then 1 else 0) ≤ 1
at_most v = elim (Bool-cases (text_same v second_url)) [
  | inl e ↦ rw e (omega arith)
  | inr e ↦ rw e (omega arith)
]

row-Once : Once (values row)
row-Once v = elim (Bool-cases (text_same v first_url)) [
  | inl e ↦
      let other : text_same v second_url ≡ false =
        subst (λ u. text_same u second_url ≡ false) (sym (text_same_to v first_url e)) refl in
      rw (e, other) (omega arith)
  | inr e ↦ rw e (at_most v)
]

gateways-Sits : Sits gateways row
gateways-Sits = record {
  front = (0, some first_url) ∷ [];
  back = (1, some second_url) ∷ [];
  whole = refl;
  at = refl;
}

first_url-Fits : Fits first_url
first_url-Fits = record { bytes = ground arith; short = omega arith }

second_url-Fits : Fits second_url
second_url-Fits = record { bytes = ground arith; short = omega arith }

abbrev drawn : Draws
drawn = record { seconds = 1500000000; nanos = 5; uuid = 1 ∷ 2 ∷ 3 ∷ [] }

drawn-Usable : Usable drawn
drawn-Usable = record { uuid_bytes = ground arith; time_set = omega arith }

-- "7,0,0,0,0,0,1", and a node that cannot be read.
abbrev nodes : List (Option Text)
nodes = some (55 ∷ 44 ∷ 48 ∷ 44 ∷ 48 ∷ 44 ∷ 48 ∷ 44 ∷ 48 ∷ 44 ∷ 48 ∷ 44 ∷ 49 ∷ []) ∷ (none ∷ [])

updating_comet_que-times_example :
    (q' : Queue Text) × (ys : Cells Text) × (updating_comet_que (λ keys. keys) gateways nodes
      ≡ some q')
    × Represents q' ys
    × ((v : Text) → times v (values ys) ≡ (if mem v (live_urls (read_all nodes)) then 1 else 0))
updating_comet_que-times_example =
    Kept.updating_comet_que-times (λ keys. keys) gateways row nodes gateways-Represents row-Once
      (omega arith) (λ w keys. refl)

reply_to-naming_example :
    (out : Bytes) × (n : Msg) × (reply_to flip_cipher drawn (9 ∷ []) first_url ≡ ok out)
    × (binary2msg flip_cipher (record new_msg { final = out }) ≡ done n)
    × (n.fh_dst_id ≡ 9)
    × (drop 36 n.text ≡ 7 ∷ first_url)
reply_to-naming_example =
    Reply.reply_to-naming flip_cipher flip_cipher-IsCipher drawn drawn-Usable (9 ∷ []) first_url
      (omega arith) first_url-Fits

choosing-Answers_example :
    Answers flip_cipher (drawn ∷ drawn ∷ drawn ∷ drawn ∷ []) (9 ∷ []) 1 udp gateways
choosing-Answers_example =
    Chosen.choosing-Answers flip_cipher flip_cipher-IsCipher (9 ∷ []) (omega arith) 1 udp refl
      gateways row gateways-Represents gateways-Sits
      ((first_url, refl, first_url-Fits), ((second_url, refl, second_url-Fits), _))
      (drawn ∷ drawn ∷ drawn ∷ drawn ∷ [])
      (drawn-Usable, (drawn-Usable, (drawn-Usable, (drawn-Usable, _)))) (omega arith) refl

-- The second gateway alone.
abbrev tcp_only : Queue Text
tcp_only = record {
  brk = 1;
  cell = λ p. elim p [
    | zero ↦ some (record { prev = none; next = none; value = some second_url })
    | suc n ↦ none
  ];
  head = some 0;
  tail = some 0;
  count = 1;
  cursor = none;
}

tcp_only-Represents : Represents tcp_only ((0, some second_url) ∷ [])
tcp_only-Represents = record {
  head_is = refl;
  tail_is = refl;
  linked = (refl, _);
  separate = (refl, _);
  below = (omega arith, _);
  counted = refl;
  few = omega arith;
  fits = omega arith;
}

choosing_never_ends_example :
    (q' : Queue Text) × (choosing flip_cipher (drawn ∷ drawn ∷ drawn ∷ []) (9 ∷ []) 1 tcp_only
      ≡ ok (again q'))
choosing_never_ends_example =
    Spinning.choosing_never_ends flip_cipher flip_cipher-IsCipher (9 ∷ []) (omega arith) 1 udp refl
      tcp_only ((0, some second_url) ∷ []) tcp_only-Represents
      ((second_url, refl, second_url-Fits), _) refl (drawn ∷ drawn ∷ drawn ∷ [])
      (drawn-Usable, (drawn-Usable, (drawn-Usable, _)))
      (record { front = (0, some second_url) ∷ []; back = []; whole = refl; at = refl })

-- The datagram of device 9, which asks for a gateway of kind 2; the sum of everything is 16 threes.
abbrev sum : Bytes → Bytes
sum b = replicate 16 3

abbrev final_of : Exit → Bytes
final_of (done m) = m.final
final_of (failed e m) = []
final_of panic = []

abbrev request : Bytes
request = final_of (
    msg2binary flip_cipher 0 (record new_msg {
      fh_opcode = 2;
      fh_time = 5;
      fh_src_id = 9;
      text = replicate 16 3 ++ (2 ∷ []);
    }))

abbrev left_of : Outcome Served → Queue Text
left_of (ok (sent q out addr)) = q
left_of _ = gateways

abbrev out_of : Outcome Served → Option Bytes
out_of (ok (sent q out addr)) = out
out_of _ = none

abbrev result : Outcome Served
result = serve flip_cipher sum (drawn ∷ []) gateways request

served : result ≡ ok (sent (left_of result) (out_of result) second_url)
unfolding serve choosing choose_udp_server next next_at reply_to naming random_byte32 encrypt
    pkcs5_padding blocks binary2msg read_front read_flags read_ids read_data_header check_length
    check_header open_body open_plain deferred msg2binary prepare seal_body seal_plain seal_random
    seal head_bytes frame_bytes guid_bytes flag_byte data_byte toggle_mask mask_ids mask_content
    mask_loop crc crc_loop crc_byte crc_bits crc_bit random_key_get key_rounds key_round Option.bind
served = refl

serve-Asks_example : Asks flip_cipher sum request (out_of result) second_url
serve-Asks_example =
    Asked.serve-Asks flip_cipher sum (drawn ∷ []) gateways request (out_of result) second_url
      (left_of result) served
