-- ===== src/Tests/Sessions.antt =====
-- A client that reads a response in two pieces, an exchange, and a server that accepts clients.
use boutique.Common.{
  ℕ, ◌≡◌, ◌↔◌, refl, sym, arith, true, false, none, some, [], ◌∷◌, Bytes, length, replicate,
}
use boutique.Core.StreamBuf
use boutique.Core.StreamBuf.{StreamBuf}
use boutique.Core.StreamBuf.Laws as StreamLaws
use boutique.Db.Collection.{KeyKind}
use boutique.Db.Database
use boutique.Protocol.Messages.{Command, Response}
use boutique.Protocol.Binary.{read_response, write_response, write_command}
use boutique.Server.Execute.{execute}
use boutique.Server.Handler.{Client}
use boutique.Server.Handler.Calls.{IsReady}
use boutique.Server.Handler.Pieces.{sent_back}
use boutique.Cli.Exchange.{Session, response, receive, receive_loop}
use boutique.Cli.Exchange.Receives.{receive_loop-response, receive_loop-closed}
use boutique.Cli.Exchange.Whole.{Exchanged, exchange-response}
use boutique.Server.Clients.{Handler, Server, remove_closed, accept_handler}
use boutique.Server.Clients.Moves.{open_nodes, ClosedLast, remove_closed-eq-open_nodes_iff}

abbrev starting : Session
starting = record { stream = StreamBuf.new; shown = [] }

receive_loop-response_example :
    (stream : StreamBuf) × (receive_loop starting ((5 ∷ 2 ∷ []) ∷ (0 ∷ 0 ∷ 0 ∷ 7 ∷ 8 ∷ []) ∷ [])
      ≡ some (record { stream = stream; shown = response (Response.found (7 ∷ 8 ∷ [])) ∷ [] }, []))
    × StreamLaws.IsValid stream
    × (StreamBuf.contents stream ≡ [])
unfolding StreamBuf.contents StreamBuf.new write_response boutique.Core.Serialize.write_uint
    boutique.Core.Serialize.write_string
receive_loop-response_example =
    receive_loop-response starting (5 ∷ 2 ∷ []) ((0 ∷ 0 ∷ 0 ∷ 7 ∷ 8 ∷ []) ∷ []) []
      (Response.found (7 ∷ 8 ∷ [])) StreamLaws.new-IsValid (omega arith)
      (omega arith, (omega arith, tt)) refl

-- the server was closed when one byte of a response was sent
abbrev cut_off : Session
cut_off = record { stream = record { m_buf = 5 ∷ []; m_size = 1; m_used = 0 }; shown = [] }

receive_loop-closed_example :
    (receive cut_off [] ≡ some (cut_off, true)) × (receive_loop cut_off (replicate 3 []) ≡ none)
unfolding StreamBuf.contents read_response boutique.Core.Serialize.read_uint
    boutique.Core.Serialize.read_string
receive_loop-closed_example =
    receive_loop-closed cut_off 3
      (record { counted = refl; used = omega arith; cleared = λ e. absurd (omega arith) })
      (omega arith) refl

abbrev hash : KeyKind → Bytes → ℕ
hash kind key = length key

abbrev connected : Client
connected = record {
  db = Database.new;
  stream = StreamBuf.new;
  closed = false;
  sent = [];
  receiving = true;
}

connected-IsReady : IsReady connected
connected-IsReady = StreamLaws.new-IsValid

not_there :
    execute hash Database.new (Command.get_schema (9 ∷ []))
    ≡ some (Database.new, Response.not_found ∷ [])
unfolding execute Database.schema Database.new
not_there = refl

-- the command arrives in two pieces
not_found_sent : sent_back hash connected ((3 ∷ 1 ∷ 0 ∷ []) ∷ (0 ∷ 0 ∷ 9 ∷ []) ∷ []) ≡ 4 ∷ []
unfolding sent_back boutique.Server.Handler.recv_handler boutique.Server.Handler.handle_loop
    boutique.Server.Handler.handle_read boutique.Protocol.Binary.read_command
    boutique.Core.Serialize.read_uint StreamBuf.contents StreamBuf.append StreamBuf.new
    boutique.Core.Serialize.read_string execute Database.schema Database.new StreamBuf.consume
    boutique.Server.Handler.write_and_send write_response boutique.Core.Serialize.write_uint
not_found_sent = refl

exchange-response_example :
    Exchanged hash connected starting
      ((3 ∷ 1 ∷ 0 ∷ []) ∷ (0 ∷ 0 ∷ 9 ∷ []) ∷ [])
      Database.new
      Response.not_found
      ((4 ∷ []) ∷ [])
      []
unfolding StreamBuf.contents StreamBuf.new write_response write_command
    boutique.Core.Serialize.write_uint boutique.Core.Serialize.write_string
exchange-response_example =
    exchange-response hash connected starting (Command.get_schema (9 ∷ [])) Database.new
      Response.not_found (3 ∷ 1 ∷ 0 ∷ []) ((0 ∷ 0 ∷ 9 ∷ []) ∷ []) (4 ∷ []) [] [] connected-IsReady
      refl (omega arith)
      (omega arith, (omega arith, (omega arith, (omega arith, (omega arith, (omega arith, tt))))))
      not_there tt (omega arith, (omega arith, tt)) refl StreamLaws.new-IsValid refl
      (omega arith, tt) (sym not_found_sent)

abbrev client : ℕ → Handler
client socket = record { m_socket = socket; m_closed = false }

abbrev gone : ℕ → Handler
gone socket = record { m_socket = socket; m_closed = true }

abbrev serving : Server
serving = record {
  m_clients = (100, gone 5) ∷ (200, client 6) ∷ [];
  receiving = 200 ∷ [];
  accepting = 0;
}

-- the handler of the socket 6, for whose old address a receive is pending, is moved
moved_client : accept_handler 300 7 serving ≡ record {
  m_clients = (100, client 6) ∷ (300, client 7) ∷ [];
  receiving = 200 ∷ 300 ∷ [];
  accepting = 1;
}
unfolding accept_handler remove_closed
moved_client = refl

remove_closed-eq-open_nodes_iff_example :
    (remove_closed [] serving.m_clients ≡ open_nodes serving.m_clients)
    ↔ ClosedLast serving.m_clients
remove_closed-eq-open_nodes_iff_example =
    remove_closed-eq-open_nodes_iff serving.m_clients ((λ e. omega (arith, e), tt), (tt, tt))
