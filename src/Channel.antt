-- ===== src/Channel.antt =====
-- `ChannelType` of communication/message_channel.py.
use pywatt_sdk.Prelude.{◌≡◌, ◌↔◌, Bool, true, false, Eq, arith}

pub data ChannelType : Type 0 where
  tcp ipc : ChannelType

abbrev same : ChannelType → ChannelType → Bool
same tcp tcp = true
same ipc ipc = true
same _ _ = false

pub same_iff : (a b : ChannelType) → (same a b ≡ true) ↔ (a ≡ b)
same_iff a b = ground arith

instance abbrev pub channel_eq : Eq ChannelType
channel_eq = record { beq = same; beq_iff = same_iff }
