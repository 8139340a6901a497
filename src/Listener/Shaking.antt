-- ===== src/Listener/Shaking.antt =====
-- What one round of the handshake loop of loft/src/dtls_mbed.rs may do.
use loft.Prelude.{ℕ, ◌≡◌, inl, inr, refl, ◌∙◌, Bool, true, false, Option, none, some, if_ind, arith}
use loft.Demux.{SocketAddr, remove_by_cid_if_mine}
use loft.Shim.Session.{
  Credentials, HandshakeStatus, done, want_read, want_write, hello_verify_required, failed,
  handshake_status, negotiated, take_credentials, Session,
}
use loft.Listener.Transport.{ConnState}
use loft.Listener.Library.{Outside}
use loft.Listener.Thread.{
  handshaking, serving, ended, Thread, Shared, Round, finish, library, Shake, establish, wait_on,
  on_shake, shake, unwrap_or_false,
}
use loft.Listener.Rounds.{
  Grants, Kept, same, then_, library-Kept, library-Steady, library-phase, library-maps,
}

abbrev pub reply_peer : Thread → SocketAddr
reply_peer t = t.session.io.committed_peer

-- Where the handshake stands after a round.
pub data Progress (conn : ℕ) (before after : Round) : Type 0 where
  ongoing :
      after.0.phase ≡ handshaking
      → after.0.is_established ≡ before.0.is_established
      → after.0.cid_active ≡ before.0.cid_active
      → after.1.maps ≡ before.1.maps
      → Progress conn before after
  over : after.0.phase ≡ ended → after.1.maps ≡ before.1.maps → Progress conn before after
  established :
      (who : Credentials)
      → after.0.phase ≡ serving
      → after.0.is_established ≡ true
      → after.0.device ≡ some who
      → (after.0.cid_active ≡ true → after.1.maps ≡ before.1.maps)
      → (after.0.cid_active ≡ false
          → after.1.maps ≡ remove_by_cid_if_mine before.1.maps before.0.cid conn)
      → Progress conn before after

pub record Shook (P : Credentials → Type 0) (conn : ℕ) (before after : Round) : Type 0 where
  pub kept : Kept P before after
  pub pinned : reply_peer after.0 ≡ reply_peer before.0
  pub progress : Progress conn before after

module _ (P : Credentials → Type 0) (conn : ℕ) where
  unchanged : (t : Thread) (w : Shared) → t.phase ≡ handshaking → Shook P conn (t, w) (t, w)
  unchanged t w shakes = record {
    kept = same P (t, w);
    pinned = refl;
    progress = Progress.ongoing shakes refl refl refl;
  }

  given_up : (t : Thread) (w : Shared) → Shook P conn (t, w) (finish t, w)
  given_up t w = record {
    kept = record {
      peer = refl;
      cid = refl;
      permit = refl;
      has = λ ok who h. ok who h;
      calls = λ ok h. h;
    };
    pinned = refl;
    progress = Progress.over refl refl;
  }

  wait_on-Shook :
      (deadline : ℕ) (k : Shake) (t : Thread) (w : Shared)
      → t.phase ≡ handshaking
      → Shook P conn (t, w) (wait_on deadline k t w)
  wait_on-Shook deadline k t w shakes =
      if_ind (Shook P conn (t, w)) _ (λ _. given_up t w) (λ _. unchanged t w shakes)

  -- `s` is the session whose credentials have been taken.
  establish-Shook :
      (k : Shake) (cid_active : Bool) (t : Thread) (w : Shared) (s : Session ConnState)
      (found : Option Credentials)
      → t.session.credentials ≡ found
      → s.credentials ≡ none
      → s.io.committed_peer ≡ reply_peer t
      → Shook P conn (t, w) (establish conn k cid_active (record t { session = s }) w found)
  establish-Shook k cid_active t w s none taken clean peer = record {
    kept = record {
      peer = refl;
      cid = refl;
      permit = refl;
      has = λ ok who h. elim h [
        | inl held ↦ absurd (ground (arith, clean, held))
        | inr dev ↦ ok who (inr dev)
      ];
      calls = λ ok h. h;
    };
    pinned = peer;
    progress = Progress.over refl refl;
  }
  establish-Shook k cid_active t w s (some me) taken clean peer = record {
    kept = record {
      peer = refl;
      cid = refl;
      permit = refl;
      has = λ ok who h. elim h [
        | inl held ↦ absurd (ground (arith, clean, held))
        | inr dev ↦ ok who (inl (taken ∙ dev))
      ];
      calls = λ ok h. h;
    };
    pinned = peer;
    progress = Progress.established me refl refl refl (λ on. rw on refl) (λ off. rw off refl);
  }

  on_shake-Shook :
      (deadline : ℕ) (k : Shake) (t : Thread) (w : Shared) (status : HandshakeStatus)
      → t.phase ≡ handshaking
      → Shook P conn (t, w) (on_shake deadline conn k t w status)
  on_shake-Shook deadline k t w done shakes =
      establish-Shook k (unwrap_or_false (negotiated k.cid_code k.cid_enabled)) t w
        (take_credentials (record t.session { io = record t.session.io { deadline = none } })).1
        t.session.credentials refl refl refl
  on_shake-Shook deadline k t w want_read shakes = wait_on-Shook deadline k t w shakes
  on_shake-Shook deadline k t w want_write shakes = wait_on-Shook deadline k t w shakes
  on_shake-Shook deadline k t w hello_verify_required shakes = given_up t w
  on_shake-Shook deadline k t w (failed e) shakes = given_up t w

  after_library :
      (a b c : Round)
      → b.1.maps ≡ a.1.maps
      → b.0.cid ≡ a.0.cid
      → b.0.is_established ≡ a.0.is_established
      → b.0.cid_active ≡ a.0.cid_active
      → Progress conn b c
      → Progress conn a c
  after_library a b c maps cid est act (Progress.ongoing p e f m) =
      Progress.ongoing p (e ∙ est) (f ∙ act) (m ∙ maps)
  after_library a b c maps cid est act (Progress.over p m) = Progress.over p (m ∙ maps)
  after_library a b c maps cid est act (Progress.established who p e d on off) =
      Progress.established who p e d (λ h. on h ∙ maps) (λ h. rw (← maps, ← cid) (off h))

  -- A round of the handshake loop keeps the session's addresses, id, permit and the peer of its replies;
  -- it goes on, ends the session, or establishes it, then with the credentials of that handshake, and
  -- with its entry under the connection id given up if no id was negotiated.
  pub shake-Shook :
      (o : Outside) (deadline : ℕ) (k : Shake) (t : Thread) (w : Shared)
      → Grants P o
      → t.phase ≡ handshaking
      → t.cid_active ≡ false
      → Shook P conn (t, w) (shake o deadline conn k t w)
  unfolding shake
  shake-Shook o deadline k t w grants shakes off =
      let r = library o k.callbacks t w in
      let kept = library-Kept P o grants k.callbacks t w in
      let steady = library-Steady P o grants k.callbacks t w in
      let maps = library-maps P o grants k.callbacks t w in
      let next =
        on_shake-Shook deadline k r.0 r.1 (handshake_status k.code)
          (library-phase P o grants k.callbacks t w ∙ shakes) in
      record {
        kept = then_ P (t, w) r _ kept next.kept;
        pinned = next.pinned ∙ steady.pinned off;
        progress =
            after_library (t, w) r _ maps kept.cid steady.established steady.cid_active
              next.progress;
      }
