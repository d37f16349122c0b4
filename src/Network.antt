-- ===== src/Network.antt =====
-- src/network: the messages of the protocol, the network of peers, and the node.
pub mod Protocol
pub mod P2pNetwork
pub mod Node
