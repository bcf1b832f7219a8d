-- ===== src/Sfu/Ingress/Rooms.antt =====
-- What MediaIngress does to the rooms: it changes them by the methods of Room and by learning the
-- endpoints of subscribers, and its routes leave them alone.
use meeting_system.Prelude.{
  ℕ, ◌≡◌, ◌⊎◌, refl, ◌∙◌, Bool, true, false, List, [], ◌∷◌, Option, none, some, not, ◌&&◌, ◌||◌,
  ◌==◌, arith, inl, inr, Bool-cases, Option-cases, if◌then◌else◌,
}
use meeting_system.Prelude.Assoc.{Text, is_empty, text_eq, nat_eq}
use meeting_system.Sfu.Room
use meeting_system.Sfu.Room.{Room, Publisher, Subscriber}
use meeting_system.Sfu.Room.Capacity.{
  adds_publisher, adds_subscriber, removes_publisher, removes_subscriber, change,
}
use meeting_system.Sfu.RoomManager.{RoomManager, get_room, with_room}
use meeting_system.Sfu.RoomManager.Invariant.{IsManager, call, Call, changes, call-IsManager}
use meeting_system.Sfu.Ingress.State.{Platform, MediaIngress}
use meeting_system.Sfu.Ingress.Routes.{
  Source, route_to, add_route, add_routes, refresh_in_room, refresh_publisher_routes, refresh_all,
  refresh_room_routes, remove_publisher_routes,
}
use meeting_system.Sfu.Ingress.Members.{
  if_given, audio_of, video_of, register, remove_replaced, bind_in_room, bind_publisher,
  bind_subscriber, merged_subscriber, forget_publisher, in_room, remove_publisher,
  remove_subscriber,
}

module _ {Dtls Srtp : Type 0} where
  pub remove_publisher_routes-rooms :
      (m : MediaIngress Dtls Srtp) (source_ssrc : ℕ)
      → (remove_publisher_routes m source_ssrc).rooms ≡ m.rooms
  unfolding remove_publisher_routes
  remove_publisher_routes-rooms m source_ssrc = ground arith

  remove_replaced-rooms :
      (m : MediaIngress Dtls Srtp) (previous merged : ℕ)
      → (remove_replaced m previous merged).rooms ≡ m.rooms
  remove_replaced-rooms m previous merged = ground (arith, remove_publisher_routes-rooms m previous)

  register-rooms : (m : MediaIngress Dtls Srtp) (ssrc : ℕ) → (register m ssrc).rooms ≡ m.rooms
  register-rooms m ssrc = ground arith

module _ {Dtls Srtp : Type 0} (p : Platform Dtls Srtp) where
  add_routes-rooms :
      (m : MediaIngress Dtls Srtp) (source : Source) (subscribers : List (Option Subscriber))
      → (add_routes p m source subscribers).rooms ≡ m.rooms
  unfolding add_routes add_route
  add_routes-rooms m source [] = refl
  add_routes-rooms m source (none ∷ rest) = add_routes-rooms m source rest
  add_routes-rooms m source (some s ∷ rest) = elim (Option-cases (route_to p source s)) [
    | inl e ↦ rw (e, add_routes) (add_routes-rooms m source rest)
    | inr (route, e) ↦
        rw (e, add_routes) (add_routes-rooms (add_route p m source.source_ssrc route) source rest)
  ]

  refresh_publisher_routes-rooms :
      (m : MediaIngress Dtls Srtp) (meeting_id : Text) (source_ssrc : ℕ)
      → (refresh_publisher_routes p m meeting_id source_ssrc).rooms ≡ m.rooms
  unfolding refresh_publisher_routes refresh_in_room
  refresh_publisher_routes-rooms m meeting_id source_ssrc = elim (Bool-cases (source_ssrc == 0)) [
    | inl no_source ↦ rw no_source refl
    | inr source ↦ rw source (elim (Option-cases (get_room m.rooms meeting_id)) [
      | inl e ↦ rw (e, refresh_publisher_routes) refl
      | inr (room, e) ↦ rw (e, refresh_publisher_routes) (add_routes-rooms _ _ _)
    ])
  ]

  refresh_all-rooms :
      (m : MediaIngress Dtls Srtp) (meeting_id : Text) (publishers : List (Option Publisher))
      → (refresh_all p m meeting_id publishers).rooms ≡ m.rooms
  unfolding refresh_all
  refresh_all-rooms m meeting_id [] = refl
  refresh_all-rooms m meeting_id (none ∷ rest) = refresh_all-rooms m meeting_id rest
  refresh_all-rooms m meeting_id (some publisher ∷ rest) =
      refresh_all-rooms
        (refresh_publisher_routes p (refresh_publisher_routes p m meeting_id publisher.audio_ssrc)
          meeting_id publisher.video_ssrc)
        meeting_id rest
      ∙ (refresh_publisher_routes-rooms _ meeting_id publisher.video_ssrc
          ∙ refresh_publisher_routes-rooms m meeting_id publisher.audio_ssrc)

  pub refresh_room_routes-rooms :
      (m : MediaIngress Dtls Srtp) (meeting_id : Text)
      → (refresh_room_routes p m meeting_id).rooms ≡ m.rooms
  unfolding refresh_room_routes
  refresh_room_routes-rooms m meeting_id = elim (Option-cases (get_room m.rooms meeting_id)) [
    | inl e ↦ rw (e, refresh_room_routes) refl
    | inr (room, e) ↦ rw (e, refresh_room_routes) (refresh_all-rooms m meeting_id _)
  ]

  -- The rooms of the state after a call, where they are `changed` or left alone.
  abbrev IsChanged : RoomManager → RoomManager → RoomManager → Type 0
  IsChanged rooms changed after = (after ≡ rooms) ⊎ (after ≡ changed)

  changed-IsManager :
      (rooms : RoomManager) (c : Call) (after : RoomManager)
      → IsChanged rooms (call rooms c) after
      → IsManager rooms
      → IsManager after
  changed-IsManager rooms c after (inl e) v = rw e v
  changed-IsManager rooms c after (inr e) v = rw e (call-IsManager rooms c v)

  abbrev chosen :
      Bool → Bool → (m changed finished : MediaIngress Dtls Srtp) → Bool × MediaIngress Dtls Srtp
  chosen refused failed m changed finished =
      if refused then (false, m) else if failed then (false, changed) else (true, finished)

  choose-IsChanged :
      (refused failed : Bool) (m changed finished : MediaIngress Dtls Srtp)
      → finished.rooms ≡ changed.rooms
      → IsChanged m.rooms changed.rooms (chosen refused failed m changed finished).1.rooms
  choose-IsChanged true failed m changed finished e = inl refl
  choose-IsChanged false true m changed finished e = inr refl
  choose-IsChanged false false m changed finished e = inr e

  bind_in_room-IsManager :
      (m : MediaIngress Dtls Srtp) (room : Room) (meeting_id user_id : Text)
      (audio_ssrc video_ssrc : ℕ)
      → IsManager m.rooms
      → IsManager (bind_in_room p m room meeting_id user_id audio_ssrc video_ssrc).1.rooms
  unfolding bind_in_room call change
  bind_in_room-IsManager m room meeting_id user_id audio_ssrc video_ssrc =
      let existing = Room.get_publisher room user_id in
      let audio = if_given audio_ssrc (audio_of existing) in
      let video = if_given video_ssrc (video_of existing) in
      let publisher : Publisher = record {
        user_id = user_id;
        audio_ssrc = audio;
        video_ssrc = video;
      } in
      let added = with_room m.rooms meeting_id (λ r. Room.add_publisher r (some publisher)) in
      let changed = record m { rooms = added.1 } in
      let first = remove_replaced changed (audio_of existing) audio in
      let second = remove_replaced first (video_of existing) video in
      changed-IsManager m.rooms (changes meeting_id (adds_publisher (some publisher))) _ (
        choose-IsChanged ((audio == 0) && (video == 0)) (not added.0) m changed
          (refresh_room_routes p (register (register second audio) video) meeting_id)
          (refresh_room_routes-rooms (register (register second audio) video) meeting_id
            ∙ (register-rooms (register second audio) video
                ∙ (register-rooms second audio
                    ∙ (remove_replaced-rooms first (video_of existing) video
                        ∙ remove_replaced-rooms changed (audio_of existing) audio)))))

  in_room-IsManager :
      (m : MediaIngress Dtls Srtp) (meeting_id user_id : Text)
      (next : Room → Bool × MediaIngress Dtls Srtp)
      → ((room : Room) → IsManager (next room).1.rooms)
      → IsManager m.rooms
      → IsManager (in_room m meeting_id user_id next).1.rooms
  unfolding in_room
  in_room-IsManager m meeting_id user_id next kept v =
      elim (Bool-cases (is_empty meeting_id || is_empty user_id)) [
        | inl e ↦ rw e v
        | inr named ↦ rw named (elim (Option-cases (get_room m.rooms meeting_id)) [
          | inl e ↦ rw (e, in_room) v
          | inr (room, e) ↦ rw (e, in_room) (kept room)
        ])
      ]

  pub bind_publisher-IsManager :
      (m : MediaIngress Dtls Srtp) (meeting_id user_id : Text) (audio_ssrc video_ssrc : ℕ)
      → IsManager m.rooms
      → IsManager (bind_publisher p m meeting_id user_id audio_ssrc video_ssrc).1.rooms
  unfolding bind_publisher
  bind_publisher-IsManager m meeting_id user_id audio_ssrc video_ssrc v =
      in_room-IsManager m meeting_id user_id _
        (λ room. bind_in_room-IsManager m room meeting_id user_id audio_ssrc video_ssrc v) v

  pub bind_subscriber-IsManager :
      (m : MediaIngress Dtls Srtp) (meeting_id user_id : Text) (audio_ssrc video_ssrc : ℕ)
      → IsManager m.rooms
      → IsManager (bind_subscriber p m meeting_id user_id audio_ssrc video_ssrc).1.rooms
  unfolding bind_subscriber call change
  bind_subscriber-IsManager m meeting_id user_id audio_ssrc video_ssrc v =
      in_room-IsManager m meeting_id user_id _
        (λ room.
          let subscriber =
            merged_subscriber user_id (Room.get_subscriber room user_id) audio_ssrc video_ssrc in
          let added = with_room m.rooms meeting_id (λ r. Room.add_subscriber r (some subscriber)) in
          let changed = record m { rooms = added.1 } in
          changed-IsManager m.rooms (changes meeting_id (adds_subscriber (some subscriber))) _
            (choose-IsChanged false (not added.0) m changed
              (refresh_room_routes p changed meeting_id)
              (refresh_room_routes-rooms changed meeting_id))
            v)
        v

  forget_publisher-rooms :
      (m : MediaIngress Dtls Srtp) (meeting_id user_id : Text) (publisher : Option Publisher)
      → (forget_publisher p m meeting_id user_id publisher).rooms ≡ m.rooms
  unfolding forget_publisher
  forget_publisher-rooms m meeting_id user_id none = refl
  forget_publisher-rooms m meeting_id user_id (some publisher) =
      remove_publisher_routes-rooms (remove_publisher_routes m publisher.audio_ssrc)
        publisher.video_ssrc
      ∙ remove_publisher_routes-rooms m publisher.audio_ssrc

  pub remove_publisher-IsManager :
      (m : MediaIngress Dtls Srtp) (meeting_id user_id : Text)
      → IsManager m.rooms
      → IsManager (remove_publisher p m meeting_id user_id).1.rooms
  unfolding remove_publisher call change
  remove_publisher-IsManager m meeting_id user_id v =
      in_room-IsManager m meeting_id user_id _
        (λ room.
          let removed = with_room m.rooms meeting_id (λ r. Room.remove_publisher r user_id) in
          let changed = record m { rooms = removed.1 } in
          changed-IsManager m.rooms (changes meeting_id (removes_publisher user_id)) _
            (choose-IsChanged false (not removed.0) m changed
              (forget_publisher p changed meeting_id user_id (Room.get_publisher room user_id))
              (forget_publisher-rooms changed meeting_id user_id (Room.get_publisher room user_id)))
            v)
        v

  pub remove_subscriber-IsManager :
      (m : MediaIngress Dtls Srtp) (meeting_id user_id : Text)
      → IsManager m.rooms
      → IsManager (remove_subscriber p m meeting_id user_id).1.rooms
  unfolding remove_subscriber call change
  remove_subscriber-IsManager m meeting_id user_id v =
      in_room-IsManager m meeting_id user_id _
        (λ room.
          let removed = with_room m.rooms meeting_id (λ r. Room.remove_subscriber r user_id) in
          let changed = record m { rooms = removed.1 } in
          changed-IsManager m.rooms (changes meeting_id (removes_subscriber user_id)) _
            (choose-IsChanged false (not removed.0) m changed
              (refresh_room_routes p changed meeting_id)
              (refresh_room_routes-rooms changed meeting_id))
            v)
        v
