-- ===== src/TcpClient/Examples.antt =====
-- A client that has its connection, and loses it.
use agora_im.Shared.{◌≡◌, refl, true, false, none, some, [], ◌∷◌, arith}
use agora_im.Connector.{connected}
use agora_im.TcpClient.{TcpClient, establishes, removes, step}
use agora_im.Shared.Assertions.{◌>>=◌}
use agora_im.TcpClient.Reconnect.{connect-remove_connection}
use agora_im.TcpClient.{connect, remove_connection}
use agora_im.TcpClient.Lifetime.{IsSound, after, replay}
use agora_im.TcpClient.Events.{IsWhole, step-IsWhole}

-- It has descriptor 5 and is to connect again.
abbrev client : TcpClient
client = record {
  connector = record {
    connect = true;
    state = connected;
    channel = none;
    retry_delay = 500;
    callback = true;
    open_fds = [];
    handed = 5 ∷ [];
    retries = [];
    resets = 0;
  };
  connection = some 5;
  retry = true;
  connect = true;
  tasks = establishes 5 ∷ [];
}

client-IsWhole : IsWhole client
unfolding after replay
client-IsWhole = record {
  client = record { orderly = refl; up = λ fd h. refl };
  connector = record { owns = refl; at_least = omega arith; at_most = omega arith };
}

-- The server closes; the next attempt, with descriptor 6, is in progress.
step-IsWhole_example :
    (cl' : TcpClient) × (step (removes 5 6 (some 115)) client ≡ some cl') × IsWhole cl'
step-IsWhole_example = step-IsWhole (removes 5 6 (some 115)) client client-IsWhole (refl, refl)

-- The same without a retry.
abbrev once : TcpClient
once = record client { retry = false }

once-IsSound : IsSound once
unfolding after replay
once-IsSound = record { orderly = refl; up = λ fd h. refl }

connect-remove_connection_example :
    (cl' : TcpClient) × ((remove_connection 5 6 none once >>= λ lost. connect 7 none lost)
      ≡ some cl')
    × (cl'.connection ≡ none)
    × (cl'.connector ≡ record once.connector { connect = true })
connect-remove_connection_example =
    connect-remove_connection 5 6 7 none none once once-IsSound refl refl
