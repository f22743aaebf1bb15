-- ===== src/Session/Notices.antt =====
-- What users are told about devices: `PushDevOnlineMsgToUsers`, `PushDevOfflineMsgToUsers` and
-- `PushSubDevOnOfflineMsgToUsers` of srv/rds.go and `NotifyBindedIdChanged` of srv/sentinel.go. Each reuses one message for all frames.
pub mod Refused
use erina.Base.{
  ◌==◌, ℕ, List, [], ◌∷◌, ◌++◌, Bool, true, Map, map, Option, none, some, insert, remove, nat_key,
  length, ltb, if◌then◌else◌,
}
use erina.Words.{Bytes, to_le}
use erina.Outcome.{Outcome, ok, err, panic, ◌>>=◌}
use erina.Aes.{Cipher}
use erina.Msg.Types.{Msg, new_msg}
use erina.Msg.Encode.{msg2binary}
use erina.Status.{MsgStatus, marshal}
use erina.Session.Types.{Text, DevSession}
use erina.Session.Forward.{left_by}

-- The frames, each with the user it is forwarded to.
abbrev pub Notices : Type 0
Notices = List (ℕ × Bytes)

-- The loop, with the message that is reused.
unfoldable pub send_each : Cipher → ℕ → Msg → List (ℕ × Bytes) → Outcome Notices
send_each c now m [] = ok []
send_each c now m ((user, text) ∷ rest) = do
  m' ← left_by (msg2binary c now (record m { fh_dst_id = user; text = text }))
  later ← send_each c now m' rest
  ok ((user, m'.final) ∷ later)

abbrev pub notice_msg : ℕ → Msg
notice_msg time = record new_msg {
  fh_mask = true;
  fh_time = time;
  fh_fin = true;
  fh_opcode = 2;
  dh_msg_id = 0x35;
}

abbrev pub notice_text : ℕ → ℕ → ℕ → Bytes
notice_text flag id srv_type = flag ∷ (to_le 8 id ++ (1 ∷ srv_type ∷ []))

unfoldable pub push_online : Cipher → ℕ → ℕ → ℕ → DevSession → Outcome Notices
unfolding send_each
push_online c now time srv_type s =
    send_each c now (notice_msg time)
      (map (λ user. (user, notice_text 9 s.dev_id srv_type)) s.users)

-- `PushSubDevOnOfflineMsgToUsers`, with the flag 0 for a device that came.
unfoldable pub push_sub_dev : Cipher → ℕ → ℕ → ℕ → DevSession → ℕ → ℕ → Outcome Notices
unfolding send_each
push_sub_dev c now time srv_type s id flag =
    send_each c now (notice_msg time)
      (map (λ user. (user, notice_text (if flag == 0 then 9 else 10) id srv_type)) s.users)

-- A notice for each device of the map, in the order in which the map is walked.
abbrev pub offline_texts : ℕ → ℕ → Map ℕ Text → List (ℕ × Bytes)
offline_texts srv_type user [] = []
offline_texts srv_type user ((id, _) ∷ devs) =
    (user, notice_text 10 id srv_type) ∷ offline_texts srv_type user devs

abbrev pub offline_all : ℕ → List ℕ → Map ℕ Text → List (ℕ × Bytes)
offline_all srv_type [] devs = []
offline_all srv_type (user ∷ users) devs =
    offline_texts srv_type user devs ++ offline_all srv_type users devs

-- The session's own device is put into the map for the loop, and taken out again. With no users
-- nothing happens.
unfoldable pub push_offline : Cipher → ℕ → ℕ → ℕ → DevSession → Outcome (DevSession × Notices)
unfolding send_each
push_offline c now time srv_type s = elim s.users [
  | [] ↦ ok (s, [])
  | user ∷ users ↦
      let devs = insert s.devs s.dev_id s.mac in
      send_each c now (notice_msg time) (offline_all srv_type s.users devs) >>= λ sent.
      ok (record s { devs = remove devs s.dev_id }, sent)
]

-- The users of a list and the frame for them; an empty list gets none. An error of `Marshal` leaves
-- nil.
abbrev pub status_text : ℕ → ℕ → Outcome Bytes
status_text kind id = elim (marshal (record { kind = kind; id = id; payload = [] })) [
  | ok b ↦ ok b
  | err e ↦ ok []
  | Outcome.panic ↦ panic
]

unfoldable pub notify_one :
    Cipher → ℕ → ℕ → ℕ → Msg → List ℕ → Outcome (Msg × List (List ℕ × Bytes))
notify_one c now id kind m ids =
    if ltb 0 (length ids)
    then (do
      text ← status_text kind id
      m' ← left_by (msg2binary c now (record m { text = text }))
      ok (m', (ids, m'.final) ∷ []))
    else ok (m, [])

unfoldable pub notify_binded_id_changed :
    Cipher → ℕ → ℕ → List ℕ → List ℕ → Outcome (List (List ℕ × Bytes))
unfolding notify_one
notify_binded_id_changed c now id bound unbound = do
  let m = record new_msg {
    fh_src_id = id;
    dh_read = true;
    fh_mask = true;
    fh_opcode = 2;
    dh_msg_id = 0x36;
  }
  first ← notify_one c now id 7 m bound
  second ← notify_one c now id 8 first.0 unbound
  ok (first.1 ++ second.1)
