-- ===== src/Lib.antt =====
-- The teleskop agent, which runs on a hypervisor: it serves the gRPC API of protoc/agent/agent.proto for
-- virtual machines, networks and security groups, and tells the satelit datastore about the host.
--
-- Files and the code that they model:
--   Go/*         what the agent uses of Go and its standard library: errors and outcomes (Go/Error),
--                calls that act on the host (Go/Action), strings as byte lists (Go/Text), TrimSpace on
--                UTF-8 (Go/Space), signed integers and strconv.ParseInt (Go/Int), encoding/hex (Go/Hex),
--                the templates of text/template (Go/Template), the operator | (Go/Bits), package net
--                (Go/Net); Go/Assoc, Go/Reports, Go/Keeps, Go/Moves and Go/Triple are rules for reasoning about
--                calls
--   Api/*        protoc/agent/agent.pb.go, the messages with fields
--   Cpu/*        cpu.go: CoreId is extractCoreID, Node is NewNode, Parse is ParseNodeList and its cases,
--                Host is GetLocalNUMANodes
--   Iptables/*   iptables.go: Client is the interface of go-iptables, Chain the names, Rules the rule
--                texts, Setup and Add the two groups of functions, Handlers the gRPC methods, Memory a
--                client kept in memory that meets the documented behaviour, Guard what calls may do to
--                the chains, Preserves the relations between hosts that the handlers keep to
--   Vm/*         virtual_machine.go and util.go: Libvirt is the client of go-libvirt, Templates the XML,
--                Uuid is domainLookupByUUID, Handlers the gRPC methods, Lawful what libvirt is documented
--                to do, Added a machine from AddVirtualMachine on,
--                Pinning the cpuset of a pinning group, Attributes the XML of an interface read as
--                attributes, Preserves as in Iptables
--   Network/*    bridge.go and vlan.go: Netlink is the package netlink, Veth the pair of interfaces
--                between a bridge and the DHCP server, Handlers the gRPC methods, Lawful what netlink is
--                documented to do, Vlan the VLAN interfaces, Bridge a bridge that is added again,
--                Preserves as in Iptables
--   Agent/*      OsBrick is block_device.go and iqn.go, Service the methods of protoc/agent/agent.pb.go
--                and their dispatch, Setup is setup.go and the function setup of main.go, Run is run of
--                main.go, Setup/Grows and Setup/Joined the interfaces of its bridges, Registered, Opened
--                and Started what the datastore knows when the servers start, Preserves what all methods
--                keep to
--   Dhcp/*       dhcp/dhcpd.go: Packet the types, Response is makeResponse, Server is ListenAndServe,
--                Routes reads option 121 as RFC 3442 says, Lease the routes of a lease, Address the
--                server's address, Panics and Loop the ways that a round can end, Replies the abstract
--                server, Refine the loop against it, Answers the leases that can be answered, Live a
--                client that waits
--   Metadata/*   metadata/metadata.go: Http what it uses of net/http, Handlers the handlers and their
--                routes, Replay the wrapper that logs, Serve the two goroutines of Serve
--   Example/*    example/util.go and the two programs below example: Client is the three of them, Node
--                and Secured are the programs against an agent
--
-- A function that acts on the host takes the host's state and returns an outcome (a result, an error or a
-- panic) and the new state, so what was done before an error stays done. Errors keep their gRPC code, the
-- fixed text of their format and the error inside; the other arguments of the format are not kept.
--
-- Code outside the repository is a parameter: the client of go-iptables with its documented effect on the
-- chains of a table, that of go-libvirt with its documented effect on the domains and netlink with that
-- on the names of interfaces and their masters (IsLawful of each), go-os-brick, the datastore's client, the connection of
-- dhcp4 with the packets that it gets and is given, dhcp4's constants, yaml, http.Server, the dialling of
-- grpc and libvirtd, errgroup, the files below /sys, and net's parsing and printing of addresses.
--
-- Loops: every loop over a collection is a recursion on the list. The counted loop of extractCoreID
-- recurs on its rounds, end - start + 1; CoreId/Loop has it on an int64, as a relation. Printing a number
-- recurs on n + 1 rounds, more than its digits; reading the print back (Go/Int/Print) shows that they
-- suffice.
--
-- Pointers: NewNode keeps the address of its loop variable, which Go 1.15 shares among the rounds. The
-- model has that variable and, for each pointer, whether it points to it. A finished node shows what its
-- pointers point to, as a reader of the node sees it.
--
-- The loop of the DHCP server has no end of its own; it is watched for a number of packets, any number.
--
-- The variables that keep the parsed templates are left out: the texts are constants, so each handler
-- executes the same template whether it finds it parsed or not, and parsing and executing it cannot fail.
--
-- Not modelled: the generated code of agent.pb.go apart from its messages and the dispatch, logging, the
-- configuration of the logger in main.go, and the redirect of ServeMux in the metadata server.
pub mod Common
pub mod Go
pub mod Api
pub mod Cpu
pub mod Iptables
pub mod Vm
pub mod Network
pub mod Agent
pub mod Dhcp
pub mod Example
pub mod Metadata
