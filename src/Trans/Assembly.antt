-- ===== src/Trans/Assembly.antt =====
-- What the receiving side of src/lws_trans_mqtt.c promises, without its buffer: the fragments of a
-- message are put together and handed on with the last one.
use lwsip.Common.{ℕ, Bool, List, [], ◌∷◌, ◌++◌, if◌then◌else◌, leb, not, length, Bytes, is_empty}
use lwsip.Trans.Types.{when}
use lwsip.Trans.Calls.{Call, incoming_publish, incoming_data}

-- The longest message.
module _ (limit : ℕ) where
  -- What is pending afterwards, and the messages handed on.
  unfoldable pub accept : Bytes → Bytes → Bool → Bytes × List Bytes
  accept pending bytes last =
      let message = pending ++ bytes in
      if leb (length message) limit
      then if last then ([], when (not (is_empty message)) message) else (message, [])
      else ([], [])

  -- Only the callbacks for incoming messages matter.
  unfoldable pub react : Bytes → Call → Bytes × List Bytes
  unfolding accept
  react pending (incoming_publish topic tot_len) = ([], [])
  react pending (incoming_data bytes last) = accept pending bytes last
  react pending _ = (pending, [])

  unfoldable pub assemble : Bytes → List Call → List Bytes
  unfolding react
  assemble pending [] = []
  assemble pending (c ∷ cs) = let now = react pending c in now.1 ++ assemble now.0 cs
