-- ===== src/Connector/Examples.antt =====
-- A connector at work.
use agora_im.Shared.{refl, true, some, [], ◌∷◌, inr, arith}
use agora_im.Connector.{Connector, connecting, writes, step}
use agora_im.Connector.Owned.{IsSound, Goes}
use agora_im.Connector.Events.{step-Goes}

-- Descriptor 9 is connecting, after two retries.
abbrev trying : Connector
trying = record {
  connect = true;
  state = connecting;
  channel = some 9;
  retry_delay = 2000;
  callback = true;
  open_fds = 9 ∷ [];
  handed = [];
  retries = 1000 ∷ 500 ∷ [];
  resets = 0;
}

trying-IsSound : IsSound trying
trying-IsSound = record {
  owns = (9, refl, refl, refl);
  at_least = omega arith;
  at_most = omega arith;
}

-- The connection is refused.
step-Goes_example : Goes (step (writes 111) trying)
step-Goes_example = step-Goes (writes 111) trying trying-IsSound (inr refl)
