-- ===== src/WebSocket/Length.antt =====
-- What the switch of WebSocketConnect.cpp does with a complete frame.
use lua_server.Common.{◌≡◌, some, [], ◌∷◌, ◌==◌, if◌then◌else◌, arith}
use lua_server.WebSocket.{WebSocketPacket, dispatch, opcode, message, closed}

-- A complete frame closes the connection if its opcode is 8, and is handed to the event object
-- otherwise. So no packet is ever queued as an answer to a ping.
pub dispatch_lem :
    (p : WebSocketPacket) → dispatch p ≡ some ((if opcode p == 8 then closed else message p) ∷ [])
unfolding dispatch
dispatch_lem p = ground arith
