-- ===== src/Lib.antt =====
-- A model of the network programming framework and of the game server that is built on it.
--
-- Connection (Connection/Connection) moves bytes. A byte buffer owns its bytes, and streams write
-- and read values at a position of one (Memory.*, for Memory/Include/Public). A connection reads
-- what the socket brings into a buffer with two positions, cuts messages out of it, each with its
-- size in front, and hands them to the session hook (Network.Receive); it packs outgoing messages
-- into buffers and writes these one after the other (Network.Send, both for
-- Network/Include/Private/Connection.h). Network.Buffer is NetworkByteBuffer, and Network.Framing is
-- what the receiving half promises, stated over plain lists.
--
-- BaseServer adds the outgoing message, whose constructor writes the size of the body
-- (Protocol.Outgoing), and GameServerPublic the opcodes (Protocol.Opcodes).
--
-- GameServer keeps a match of players. Game.Vector and Game.Player are the vectors, entities and
-- players with their serialization; Game.Message is every message that the server sends.
--
-- Under GameServer/GameServer, Game.Attack is an attack's update (Attack.cpp), Game.Collection a
-- player's collecting (Collection.cpp), Game.Spawner the timers of both spawners (NPCSpawner.h and
-- CollectableSpawner.h) and Game.Aura the internal auras of a session (ShieldRegeneratorAura.h,
-- AttackerAura.h, DemilitarizedProtectionAura.h). Game.Session is the way of a message from the
-- session hook to its handler (SessionHook.cpp, Session.cpp).
--
-- Game.Match is a match (Match.h): the tables of sessions, attacks, jumps, collections, collectables
-- and portals, and what it sends to the sessions. Under it, Combat is the start and the update of
-- attacks, Travel jumps and transfers (with Jump.cpp and Portal.h), Gather the collections, and Roster
-- the sessions: the handlers of MatchSession.cpp, the updates and the end of a session, and
-- `Match::Update`, in which the behaviour of an artificial player is a function on the match
-- (FullAggresive.Turn gives that of an aggresive one). Game.Ai are the artificial players (NPC.h), FullAggresive the aggresive ones
-- (FullAggresiveNPCAI.h) and Defensive those that fight back (DefensiveNPCAI.h); they act on the same
-- match. A session is held by its key: pointers to it are keys, and the use of a key that is gone is
-- `none`, as is the exception of `at`. Loops over a table go over its keys as they were.
--
-- Game.Area is an area of a match, with the protection of the demilitarized ones (ScriptableArea.h,
-- DemilitarizedArea.h).
--
-- Game.Lobby is the game around the matches: new sessions, the sign-in, and the accounts (Game.h,
-- AccountManager.h, GameSession.cpp), with the loading of a player as an event:
-- what the database gives for him, and whether his match takes him, are inputs.
--
-- Network.Threads are the network threads (Connection/Connection/Network/Include/Private/NetworkThread.h)
-- with the choice of one (BaseServer/BaseServer/Network/Include/Private/Acceptor.h), and Connector the
-- connections of a client (Connector/Connector/Network/Source/ConnectionManager.cpp), whose handlers
-- are steps in one order, whichever thread they run on.
--
-- Concurrency.Mpsc is the queue between the network threads and the game, as atomic steps in one
-- order for all threads (Connection/Connection/Concurrency/Include/Public/MPSCQueue.h).
--
-- Numbers are native natural numbers with their wrap-around written out, and size_t has 64 bits.
-- Floats are a parameter (Prelude.Float), because the code's properties do not depend on their
-- arithmetic; Prelude.Decimal is an instance for the tests. What malloc's memory holds is a function
-- `junk`. Sockets, threads and the database are inputs. The loop of ExtractMessages runs on fuel,
-- one more than the number of unread bytes, which each round that goes on makes fewer.
--
-- Not modelled: how a handler reads its message, the listening of the acceptor, the database, the
-- random points of spawners, the C interface of the connector, and the start of the program.
pub mod Prelude
pub mod Memory
pub mod Protocol
pub mod Game
pub mod Network
pub mod Concurrency
pub mod Connector
