-- ===== src/Lib.antt =====
-- mniam-headless: the server of a game in which players steer circles over a map, eat food and each
-- other. Remote programs play, over TCP.
--
-- The parts of the program and the modules that model them:
-- - Engine: src/engine. World holds the foods and players, each a Mortal with hitpoints and a body.
--   Contacts holds the handlers of ContactListener, Stepping holds World::step. Rules is the game in
--   the abstract, played with hitpoints alone.
-- - Connection: src/connection_server.*, src/connection_client.*, src/connection_transaction.h. The
--   Server keeps the clients under their ids and schedules a transaction with them; each client has a
--   thread (Thread) that takes client transactions from the queue, writes the request to the socket
--   and reads the response (Clients). Requests holds ClientTransaction, Transactions holds
--   Transaction with the memory of the client transactions. Lifetime is the thread of a client against
--   the server, and Hubs is the server's thread, those of all clients and the one that runs
--   transactions, as steps that come in any order. Rounds lets the threads of all clients make a
--   round, and Talking keeps what each hands to its socket in it.
-- - Amcom: src/amcom.*, src/amcom_packets.h, src/amcom_transactions.h. The packets of the protocol and
--   the transactions that carry them, with the validator that the client's thread calls.
-- - Game: src/amgame.*, src/player.*, src/food.*, src/main.cpp. Game::update goes through the phases
--   of a match: it runs transactions, steps the world and reports what has changed.
--   In Phases what the clients answer is an argument. Serving is the program as a whole, update and main
--   with the server below them, so that the answers come from the sockets; it keeps what each socket is
--   handed. Answering reads the answers off the sockets, and Heeding says which transactions are for a
--   client and what its socket does so that the server keeps it. Playing follows the program update by
--   update, and Understanding reads what a client was handed back into states.
-- - Remote: src/remote_connection.*. A connection that the program opens itself, which no code of the
--   game constructs: its transactions, and its thread (Thread) with the loop on the connection
--   (Connection).
-- - Base: lists, signed integers and ordered maps over the native numbers, with their lemmas.
-- - Tests: concrete worlds, servers and packets that the theorems are applied to.
--
-- An object that C++ code refers to is a place in a list (Ref) or an address in a Store, so that an
-- operation is a function on the state that holds it. A function of the code is the function of the
-- model with its name in snake_case. An operation that holds a lock is one step.
--
-- What is not in the repository is an argument: Box2D (Events: the motion and contacts of a step), the
-- float arithmetic (FloatOps; a float is its bit pattern), sockpp, WinSock and the clock (Exchange,
-- Incoming, Round, ThreadAnswers), the answers of the clients (Answers, Outside) and the three
-- functions of the packet library that amcom.c leaves open (Amcom, with what amcom.h documents in
-- IsAmcom).
--
-- Numbers: hitpoints are the signed integers of Base.Int, without the bounds of an int; ids,
-- times and numbers in packets wrap as their unsigned types do. No definition runs on fuel: the loops
-- that end are recursions on their list, an endless loop is a step function or a recursion on what the
-- outside answers.
--
-- Not modelled: printing, sleeping and the seed of the random numbers; the shape and the fixtures of
-- bodies, which Box2D uses; the receiver states of src/amcom.h, which no code uses; races on single
-- variables outside the locks. A round of a client's thread is one step, so what others do within it is
-- not modelled, as between the signal at its end and the read of responseSize after it.
pub mod Base
pub mod Engine
pub mod Connection
pub mod Amcom
pub mod Game
pub mod Remote
pub mod Tests
