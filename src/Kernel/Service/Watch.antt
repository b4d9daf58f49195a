-- ===== src/Kernel/Service/Watch.antt =====
-- The watch channel of the async runtime, as kernel/src/runtime/service/mod.rs uses it.
use xray_rs.Base.{◌≡◌, Bool, true, false}

-- `Slot`
pub data Slot (S : Type 0) : Type 0 where
  updating : Slot S
  ready : S → Slot S

-- What a stream of slots gives when it is polled.
pub data Polled (S : Type 0) : Type 0 where
  item : Slot S → Polled S
  closed nothing : Polled S

-- The sender stands for the channel. `send` says whether there was a receiver.
pub record WatchChannel (S : Type 0) : Type 1 where
  pub Sender : Type 0
  pub Receiver : Type 0
  pub Stream : Type 0
  pub channel : Slot S → Sender × Receiver
  pub send : Slot S → Sender → Bool × Sender
  pub subscribe : Receiver → Stream
  pub poll_next : Sender → Stream → Polled S × Stream
  -- The value in the channel; whether there is a receiver; whether a stream has not seen the value.
  pub latest : Sender → Slot S
  pub has_receiver : Sender → Bool
  pub is_behind : Sender → Stream → Bool

-- The documented behaviour: a send without receivers fails and changes nothing, another one puts the
-- value in; a stream gives the value that it has not seen, once.
pub record IsLawful {S : Type 0} (W : WatchChannel S) : Type 0 where
  pub latest-channel : (v : Slot S) → W.latest (W.channel v).0 ≡ v
  pub has_receiver-channel : (v : Slot S) → W.has_receiver (W.channel v).0 ≡ true
  pub send_fails :
      (v : Slot S) (tx : W.Sender) → W.has_receiver tx ≡ false → W.send v tx ≡ (false, tx)
  pub send_works : (v : Slot S) (tx : W.Sender) → W.has_receiver tx ≡ true → (W.send v tx).0 ≡ true
  pub latest-send :
      (v : Slot S) (tx : W.Sender) → W.has_receiver tx ≡ true → W.latest (W.send v tx).1 ≡ v
  pub has_receiver-send :
      (v : Slot S) (tx : W.Sender) → W.has_receiver (W.send v tx).1 ≡ W.has_receiver tx
  pub poll_behind :
      (tx : W.Sender) (st : W.Stream)
      → W.is_behind tx st ≡ true
      → ((W.poll_next tx st).0 ≡ item (W.latest tx))
        × (W.is_behind tx (W.poll_next tx st).1 ≡ false)
  pub poll_seen :
      (tx : W.Sender) (st : W.Stream) (v : Slot S)
      → W.is_behind tx st ≡ false
      → (W.poll_next tx st).0 ≡ item v
      → ⊥
